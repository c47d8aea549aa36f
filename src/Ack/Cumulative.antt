-- ===== src/Ack/Cumulative.antt =====
-- `una`, the cumulative acknowledgement.
use fiber_kcp.Prelude.{ℕ, ◌≤◌, ◌<◌, ◌≡◌, arith, subst, List, ◌++◌, All}
use fiber_kcp.Word.{u32_mod, sub32}
use fiber_kcp.Wire.{Segment}
use fiber_kcp.Control.{Ikcpcb}
use fiber_kcp.Ack.{parse_una, shrink_buf, drop_before}
use fiber_kcp.Recv.Order.{Ascending, Ascending-mono}
use fiber_kcp.Ack.Order.{
  IsSending, Dropped, drop_before-Dropped, All-tail, Ascending-length, Leads, shrink_buf-IsSending,
  shrink_buf-Leads, shrink_buf_moves,
}

-- The segments before `una` are gone, and no other.
abbrev pub Acknowledged : Ikcpcb → ℕ → Ikcpcb → Type 0
Acknowledged k una k' =
    (gone : List Segment) × (k.snd_buf ≡ gone ++ k'.snd_buf)
    × All (λ s. sub32 s.sn k.snd_una < sub32 una k.snd_una) gone
    × Ascending k.snd_una (sub32 una k.snd_una) k'.snd_buf

module _ (k : Ikcpcb) (una : ℕ) (v : IsSending k) (hu : una < u32_mod)
    (known : sub32 una k.snd_una ≤ sub32 k.snd_nxt k.snd_una) where
  dropped : Dropped k.snd_una una k.snd_buf (drop_before una k.nsnd_buf k.snd_buf)
  dropped =
      drop_before-Dropped k.snd_una una 0 k.nsnd_buf k.snd_buf v.una hu (omega (arith, v.span))
        v.ordered (omega (arith, Ascending-length k.snd_una 0 k.snd_buf (omega arith) v.ordered))
        v.buffered

  parse_una-IsSending : IsSending (parse_una k una)
  unfolding parse_una
  parse_una-IsSending = go dropped
    where
      go :
          Dropped k.snd_una una k.snd_buf (drop_before una k.nsnd_buf k.snd_buf)
          → IsSending (
              let r = drop_before una k.nsnd_buf k.snd_buf in
              record k { nsnd_buf = r.0; snd_buf = r.1 })
      go (gone, e, c, all, asc) = record {
        una = v.una;
        nxt = v.nxt;
        span = v.span;
        buffered = c;
        ordered = Ascending-mono k.snd_una (sub32 una k.snd_una) 0 _ (omega arith) asc;
        sent =
            All-tail (λ s. sub32 s.sn k.snd_una < sub32 k.snd_nxt k.snd_una) gone _
              (subst (All (λ s. sub32 s.sn k.snd_una < sub32 k.snd_nxt k.snd_una)) e v.sent);
      }

  -- On a well-formed sending side, for an una between snd_una and snd_nxt, the segments before it,
  -- and only those, leave snd_buf; the counter follows, snd_una moves on to una at least and is
  -- then the number of the first segment left, or snd_nxt if there is none, and the sending side
  -- stays well formed.
  pub parse_una_acknowledges :
      IsSending (shrink_buf (parse_una k una))
      × Acknowledged k una (shrink_buf (parse_una k una))
      × (sub32 una k.snd_una ≤ sub32 (shrink_buf (parse_una k una)).snd_una k.snd_una)
      × (sub32 (shrink_buf (parse_una k una)).snd_una k.snd_una ≤ sub32 k.snd_nxt k.snd_una)
      × Leads
          (shrink_buf (parse_una k una)).snd_una
          k.snd_nxt
          (shrink_buf (parse_una k una)).snd_buf
  unfolding parse_una shrink_buf
  parse_una_acknowledges =
      let moved = shrink_buf-IsSending (parse_una k una) parse_una-IsSending in
      (
        moved.0,
        (dropped.0, dropped.1, dropped.3, dropped.4),
        shrink_buf_moves (parse_una k una) (sub32 una k.snd_una) parse_una-IsSending dropped.4
            known,
        moved.1,
        shrink_buf-Leads (parse_una k una),
      )
