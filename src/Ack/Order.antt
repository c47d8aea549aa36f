-- ===== src/Ack/Order.antt =====
-- The order of `snd_buf`, the invariant of the sending side.
use fiber_kcp.Prelude.{
  ℕ, suc, ◌+◌, ◌-◌, ◌^◌, ◌≤◌, ◌<◌, ◌≡◌, refl, arith, is_pos, ap, subst, List, [], ◌∷◌, ◌++◌, All,
  length, Bool-cases, inl, inr,
}
use fiber_kcp.Word.{u32_mod, sub32, itimediff}
use fiber_kcp.Word.Serial.{itimediff-is_pos}
use fiber_kcp.Wire.{Segment}
use fiber_kcp.Control.{Ikcpcb}
use fiber_kcp.Ack.{shrink_buf, drop_before, first_sn}
use fiber_kcp.Recv.Order.{Ascending}

-- The sending side: the counters count, and `snd_buf` rises from `snd_una` on and stays below
-- `snd_nxt`.
pub record SendingSide (snd_una snd_nxt nsnd_buf : ℕ) (snd_buf : List Segment) : Type 0 where
  pub una : snd_una < u32_mod
  pub nxt : snd_nxt < u32_mod
  pub span : sub32 snd_nxt snd_una < 2 ^ 31
  pub buffered : nsnd_buf ≡ length snd_buf
  pub ordered : Ascending snd_una 0 snd_buf
  pub sent : All (λ s. sub32 s.sn snd_una < sub32 snd_nxt snd_una) snd_buf

abbrev pub IsSending : Ikcpcb → Type 0
IsSending k = SendingSide k.snd_una k.snd_nxt k.nsnd_buf k.snd_buf

-- The loop of `ikcp_parse_una` keeps the segments from `una` on.
abbrev pub Dropped : ℕ → ℕ → List Segment → ℕ × List Segment → Type 0
Dropped base una buf r =
    (gone : List Segment) × (buf ≡ gone ++ r.1)
    × (r.0 ≡ length r.1)
    × All (λ s. sub32 s.sn base < sub32 una base) gone
    × Ascending base (sub32 una base) r.1

pub drop_before-Dropped :
    (base una lo n : ℕ) (buf : List Segment)
    → base < u32_mod
    → una < u32_mod
    → sub32 una base < 2 ^ 31
    → Ascending base lo buf
    → length buf < u32_mod
    → n ≡ length buf
    → Dropped base una buf (drop_before una n buf)
unfolding drop_before
drop_before-Dropped base una lo n [] hb hu hd a l e = ([], refl, e, tt, tt)
drop_before-Dropped base una lo n (s ∷ buf) hb hu hd a l e =
    elim (Bool-cases (is_pos (itimediff una s.sn))) [
      | inl old ↦ rw old (
          more (ground (arith, itimediff-is_pos base una s.sn)) (
            drop_before-Dropped base una (suc (sub32 s.sn base)) (sub32 n 1) buf hb hu hd a.3
              (omega arith) (omega arith)))
      | inr new ↦
          rw new ([], refl, e, tt, (a.0, ground (arith, itimediff-is_pos base una s.sn), a.2, a.3))
    ]
  where
    more :
        sub32 s.sn base < sub32 una base
        → Dropped base una buf (drop_before una (sub32 n 1) buf)
        → Dropped base una (s ∷ buf) (drop_before una (sub32 n 1) buf)
    more h (gone, p, c, all, asc) = (s ∷ gone, ap (◌∷◌ s) p, c, (h, all), asc)

pub All-tail : (P : Segment → Type 0) (a b : List Segment) → All P (a ++ b) → All P b
All-tail P [] b h = h
All-tail P (s ∷ a) b h = All-tail P a b h.1

pub Ascending-length :
    (base lo : ℕ) (buf : List Segment)
    → lo ≤ 2 ^ 31
    → Ascending base lo buf
    → length buf + lo ≤ 2 ^ 31
Ascending-length base lo [] h a = omega arith
Ascending-length base lo (s ∷ buf) h a =
    omega (arith, Ascending-length base (suc (sub32 s.sn base)) buf (omega arith) a.3)

-- A base further on takes the same off every distance.
rebase :
    (base base' lo : ℕ) (buf : List Segment)
    → base < u32_mod
    → base' < u32_mod
    → sub32 base' base ≤ lo
    → Ascending base lo buf
    → Ascending base' (lo - sub32 base' base) buf
rebase base base' lo [] hb hb' h a = tt
rebase base base' lo (s ∷ buf) hb hb' h a = (
  a.0,
  omega arith,
  omega arith,
  subst (λ n. Ascending base' n buf) (omega arith)
      (rebase base base' (suc (sub32 s.sn base)) buf hb hb' (omega arith) a.3),
)

-- All of the list lies before `nxt`, seen from a base further on.
rebase_sent :
    (base base' lo nxt : ℕ) (buf : List Segment)
    → base < u32_mod
    → base' < u32_mod
    → nxt < u32_mod
    → sub32 base' base ≤ lo
    → Ascending base lo buf
    → All (λ s. sub32 s.sn base < sub32 nxt base) buf
    → All (λ s. sub32 s.sn base' < sub32 nxt base') buf
rebase_sent base base' lo nxt [] hb hb' hn h a all = tt
rebase_sent base base' lo nxt (s ∷ buf) hb hb' hn h a all = (
  omega arith,
  rebase_sent base base' (suc (sub32 s.sn base)) nxt buf hb hb' hn (omega arith) a.3 all.1,
)

first_sn_bounds :
    (base lo nxt : ℕ) (buf : List Segment)
    → nxt < u32_mod
    → Ascending base lo buf
    → All (λ s. sub32 s.sn base < sub32 nxt base) buf
    → lo ≤ sub32 nxt base
    → (first_sn nxt buf < u32_mod)
      × (lo ≤ sub32 (first_sn nxt buf) base)
      × (sub32 (first_sn nxt buf) base ≤ sub32 nxt base)
      × Ascending base (sub32 (first_sn nxt buf) base) buf
unfolding first_sn
first_sn_bounds base lo nxt [] hn a all h = (hn, h, omega arith, tt)
first_sn_bounds base lo nxt (s ∷ buf) hn a all h =
    (a.0, a.1, omega (arith, all.0), (a.0, omega arith, a.2, a.3))

-- The number `una` is the first of the list, or `nxt` if there is none.
abbrev pub Leads : ℕ → ℕ → List Segment → Type 0
Leads una nxt [] = una ≡ nxt
Leads una nxt (s ∷ buf) = una ≡ s.sn

first_sn-Leads : (nxt : ℕ) (buf : List Segment) → Leads (first_sn nxt buf) nxt buf
unfolding first_sn
first_sn-Leads nxt [] = refl
first_sn-Leads nxt (s ∷ buf) = refl

pub shrink_buf-Leads :
    (k : Ikcpcb) → Leads (shrink_buf k).snd_una (shrink_buf k).snd_nxt (shrink_buf k).snd_buf
unfolding shrink_buf
shrink_buf-Leads k = first_sn-Leads k.snd_nxt k.snd_buf

-- If all that is left lies from the distance `lo` on, so does `snd_una` then.
pub shrink_buf_moves :
    (k : Ikcpcb) (lo : ℕ)
    → IsSending k
    → Ascending k.snd_una lo k.snd_buf
    → lo ≤ sub32 k.snd_nxt k.snd_una
    → lo ≤ sub32 (shrink_buf k).snd_una k.snd_una
unfolding shrink_buf
shrink_buf_moves k lo v a h = (first_sn_bounds k.snd_una lo k.snd_nxt k.snd_buf v.nxt a v.sent h).1

-- `ikcp_shrink_buf` moves `snd_una` up to the first segment that is left, or to `snd_nxt`.
pub shrink_buf-IsSending :
    (k : Ikcpcb)
    → IsSending k
    → IsSending (shrink_buf k)
      × (sub32 (shrink_buf k).snd_una k.snd_una ≤ sub32 k.snd_nxt k.snd_una)
unfolding shrink_buf
shrink_buf-IsSending k v = (
  record {
    una = b.0;
    nxt = v.nxt;
    span = omega (arith, b.2, v.span, v.una, v.nxt, b.0);
    buffered = v.buffered;
    ordered =
        subst (λ n. Ascending u n k.snd_buf) (omega arith)
          (rebase k.snd_una u (sub32 u k.snd_una) k.snd_buf v.una b.0 (omega arith) b.3);
    sent =
        rebase_sent k.snd_una u (sub32 u k.snd_una) k.snd_nxt k.snd_buf v.una b.0 v.nxt
          (omega arith) b.3 v.sent;
  },
  b.2,
)
  where
    u : ℕ
    u = first_sn k.snd_nxt k.snd_buf

    b :
        (u < u32_mod)
        × (0 ≤ sub32 u k.snd_una)
        × (sub32 u k.snd_una ≤ sub32 k.snd_nxt k.snd_una)
        × Ascending k.snd_una (sub32 u k.snd_una) k.snd_buf
    b = first_sn_bounds k.snd_una 0 k.snd_nxt k.snd_buf v.nxt v.ordered v.sent (omega arith)
