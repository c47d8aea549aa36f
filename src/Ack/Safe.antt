-- ===== src/Ack/Safe.antt =====
-- The invariant of a control block, and the functions of ikcp.c:543-671 that acknowledgements call.
use fiber_kcp.Prelude.{
  ℕ, suc, ◌<◌, ◌^◌, ◌%◌, ◌≡◌, refl, arith, ap, sym, ◌∙◌, subst, List, [], ◌∷◌, ◌++◌, All, length,
  if_cases, inl, inr, is_pos, is_neg, ◌==◌, if◌then◌else◌,
}
use fiber_kcp.Word.{u32_mod, add32, sub32, itimediff}
use fiber_kcp.Wire.{Segment}
use fiber_kcp.Control.{Ikcpcb}
use fiber_kcp.Ack.{
  parse_una, parse_ack, parse_fastack, shrink_buf, drop_before, count_skips, not_sent, update_ack,
  smooth, ack_push,
}
use fiber_kcp.Recv.Order.{Ascending, Ascending-mono}
use fiber_kcp.Recv.Moves.{Consecutive}
use fiber_kcp.Recv.Arrival.{IsReceiving}
use fiber_kcp.Ack.Order.{IsSending, All-tail, Ascending-length, shrink_buf-IsSending}
use fiber_kcp.Ack.Selective.{parse_ack_acknowledges}

-- Both sides of a control block are well formed, `rcv_queue` holds the numbers up to `rcv_nxt` without
-- a gap, `nsnd_que` counts the send queue, in 32 bits, and what the clock and the window read is in range.
pub record IsWell (k : Ikcpcb) : Type 0 where
  pub sending : IsSending k
  pub receiving : IsReceiving k
  pub run : Consecutive (sub32 k.rcv_nxt k.nrcv_que) k.rcv_queue
  pub queue : k.nsnd_que ≡ length k.snd_queue % u32_mod
  pub send_wnd : k.snd_wnd < 2 ^ 31
  pub flush_time : k.ts_flush < u32_mod

abbrev EndOf : List Segment → ℕ × List Segment → Type 0
EndOf buf r = (gone : List Segment) × (buf ≡ gone ++ r.1) × (r.0 ≡ length r.1)

drop_before-EndOf :
    (una n : ℕ) (buf : List Segment)
    → length buf < u32_mod
    → n ≡ length buf
    → EndOf buf (drop_before una n buf)
unfolding drop_before
drop_before-EndOf una n [] l e = ([], refl, e)
drop_before-EndOf una n (s ∷ buf) l e =
    if_cases (EndOf (s ∷ buf)) (is_pos (itimediff una s.sn)) _ _
      (λ _. more (drop_before-EndOf una (sub32 n 1) buf (omega arith) (omega arith)))
      (λ _. ([], refl, e))
  where
    more : {r : ℕ × List Segment} → EndOf buf r → EndOf (s ∷ buf) r
    more (gone, p, c) = (s ∷ gone, ap (◌∷◌ s) p, c)

Ascending-end :
    (base lo : ℕ) (a b : List Segment) → Ascending base lo (a ++ b) → Ascending base lo b
Ascending-end base lo [] b h = h
Ascending-end base lo (s ∷ a) b h =
    Ascending-mono base (suc (sub32 s.sn base)) lo b (omega (arith, h.1))
      (Ascending-end base (suc (sub32 s.sn base)) a b h.3)

pub parse_una-IsWell : (k : Ikcpcb) (una : ℕ) → IsWell k → IsWell (shrink_buf (parse_una k una))
unfolding parse_una shrink_buf
parse_una-IsWell k una w = record {
  sending =
      (shrink_buf-IsSending (parse_una k una) (
        go (
          drop_before-EndOf una k.nsnd_buf k.snd_buf
            (omega (arith, Ascending-length k.snd_una 0 k.snd_buf (omega arith) v.ordered))
            v.buffered))).0;
  receiving = w.receiving;
  run = w.run;
  queue = w.queue;
  send_wnd = w.send_wnd;
  flush_time = w.flush_time;
}
  where
    v : IsSending k
    v = w.sending

    go : EndOf k.snd_buf (drop_before una k.nsnd_buf k.snd_buf) → IsSending (parse_una k una)
    go (gone, e, c) = record {
      una = v.una;
      nxt = v.nxt;
      span = v.span;
      buffered = c;
      ordered = Ascending-end k.snd_una 0 gone _ (subst (Ascending k.snd_una 0) e v.ordered);
      sent =
          All-tail (λ s. sub32 s.sn k.snd_una < sub32 k.snd_nxt k.snd_una) gone _
            (subst (All (λ s. sub32 s.sn k.snd_una < sub32 k.snd_nxt k.snd_una)) e v.sent);
    }

-- All but the sending side.
abbrev Others : Ikcpcb → Type 0
Others k =
    IsReceiving k
    × Consecutive (sub32 k.rcv_nxt k.nrcv_que) k.rcv_queue
    × (k.nsnd_que ≡ length k.snd_queue % u32_mod)
    × (k.snd_wnd < 2 ^ 31)
    × (k.ts_flush < u32_mod)

parse_ack-Others : (k : Ikcpcb) (sn : ℕ) → Others k → Others (parse_ack k sn)
unfolding parse_ack
parse_ack-Others k sn v = if_cases Others (not_sent k sn) _ _ (λ _. v) (λ _. v)

pub parse_ack-IsWell :
    (k : Ikcpcb) (sn : ℕ) → IsWell k → sn < u32_mod → IsWell (shrink_buf (parse_ack k sn))
unfolding shrink_buf
parse_ack-IsWell k sn w h = record {
  sending = elim (parse_ack_acknowledges k sn w.sending h) [
    | inl (a, b, l, v) ↦ v
    | inr (a, e) ↦
        subst (λ x. IsSending (shrink_buf x)) (sym e) (shrink_buf-IsSending k w.sending).0
  ];
  receiving = others.0;
  run = others.1;
  queue = others.2;
  send_wnd = others.3;
  flush_time = others.4;
}
  where
    others : Others (parse_ack k sn)
    others = parse_ack-Others k sn (w.receiving, w.run, w.queue, w.send_wnd, w.flush_time)

smooth-IsWell : (k : Ikcpcb) (rtt : ℕ) → IsWell k → IsWell (smooth k rtt)
unfolding smooth
smooth-IsWell k rtt w =
    if_cases IsWell (k.rx_srtt == 0) _ _
      (λ _. record {
        sending = w.sending;
        receiving = w.receiving;
        run = w.run;
        queue = w.queue;
        send_wnd = w.send_wnd;
        flush_time = w.flush_time;
      })
      (λ _. record {
        sending = w.sending;
        receiving = w.receiving;
        run = w.run;
        queue = w.queue;
        send_wnd = w.send_wnd;
        flush_time = w.flush_time;
      })

pub update_ack-IsWell : (k : Ikcpcb) (rtt : ℕ) → IsWell k → IsWell (update_ack k rtt)
unfolding update_ack
update_ack-IsWell k rtt w =
    let v = smooth-IsWell k rtt w in
    record {
      sending = v.sending;
      receiving = v.receiving;
      run = v.run;
      queue = v.queue;
      send_wnd = v.send_wnd;
      flush_time = v.flush_time;
    }

-- What holds of a segment by its number holds of it with one more skip.
skip_one :
    (P : Segment → Type 0) (sn : ℕ) (s : Segment)
    → P s
    → P (record s { fastack = add32 s.fastack 1 })
    → P (if sn == s.sn then s else record s { fastack = add32 s.fastack 1 })
skip_one P sn s a b = if_cases P (sn == s.sn) _ _ (λ _. a) (λ _. b)

skips-Ascending :
    (sn base lo : ℕ) (buf : List Segment)
    → Ascending base lo buf
    → Ascending base lo (count_skips sn buf)
unfolding count_skips
skips-Ascending sn base lo [] a = tt
skips-Ascending sn base lo (s ∷ buf) a =
    let rest = skips-Ascending sn base (suc (sub32 s.sn base)) buf a.3 in
    if_cases (Ascending base lo) (is_neg (itimediff sn s.sn)) _ _ (λ _. a)
      (λ _.
        skip_one (λ x. Ascending base lo (x ∷ count_skips sn buf)) sn s (a.0, a.1, a.2, rest)
          (a.0, a.1, a.2, rest))

skips-sent :
    (sn base n : ℕ) (buf : List Segment)
    → All (λ s. sub32 s.sn base < n) buf
    → All (λ s. sub32 s.sn base < n) (count_skips sn buf)
unfolding count_skips
skips-sent sn base n [] a = tt
skips-sent sn base n (s ∷ buf) a =
    if_cases (All (λ s. sub32 s.sn base < n)) (is_neg (itimediff sn s.sn)) _ _ (λ _. a)
      (λ _.
        skip_one (λ x. All (λ s. sub32 s.sn base < n) (x ∷ count_skips sn buf)) sn s
          (a.0, skips-sent sn base n buf a.1) (a.0, skips-sent sn base n buf a.1))

length-count_skips : (sn : ℕ) (buf : List Segment) → length (count_skips sn buf) ≡ length buf
unfolding count_skips
length-count_skips sn [] = refl
length-count_skips sn (s ∷ buf) =
    if_cases (λ (l : List Segment). length l ≡ suc (length buf)) (is_neg (itimediff sn s.sn)) _ _
      (λ _. refl) (λ _. ap suc (length-count_skips sn buf))

pub parse_fastack-IsWell : (k : Ikcpcb) (sn : ℕ) → IsWell k → IsWell (parse_fastack k sn)
unfolding parse_fastack
parse_fastack-IsWell k sn w =
    if_cases IsWell (not_sent k sn) _ _ (λ _. w)
      (λ _. record {
        sending = record {
          una = v.una;
          nxt = v.nxt;
          span = v.span;
          buffered = v.buffered ∙ sym (length-count_skips sn k.snd_buf);
          ordered = skips-Ascending sn k.snd_una 0 k.snd_buf v.ordered;
          sent = skips-sent sn k.snd_una (sub32 k.snd_nxt k.snd_una) k.snd_buf v.sent;
        };
        receiving = w.receiving;
        run = w.run;
        queue = w.queue;
        send_wnd = w.send_wnd;
        flush_time = w.flush_time;
      })
  where
    v : IsSending k
    v = w.sending

pub ack_push-IsWell : (k : Ikcpcb) (sn ts : ℕ) → IsWell k → IsWell (ack_push k sn ts)
unfolding ack_push
ack_push-IsWell k sn ts w = record {
  sending = w.sending;
  receiving = w.receiving;
  run = w.run;
  queue = w.queue;
  send_wnd = w.send_wnd;
  flush_time = w.flush_time;
}
