-- ===== src/Recv/Progress.antt =====
-- Sequences of arrivals at `ikcp_parse_data`.
use fiber_kcp.Prelude.{
  ℕ, ◌+◌, ◌^◌, ◌≤◌, ◌<◌, ◌≡◌, sym, subst, ◌⊎◌, inl, inr, List, [], ◌∷◌, ◌++◌, arith, length, All,
}
use fiber_kcp.Word.{u32_mod, sub32, add32}
use fiber_kcp.Wire.{Segment}
use fiber_kcp.Control.{Ikcpcb}
use fiber_kcp.Recv.{parse_data}
use fiber_kcp.Recv.Order.{HasSn}
use fiber_kcp.Recv.Moves.{Consecutive}
use fiber_kcp.Recv.Arrival.{IsReceiving, parse_data-IsReceiving}
use fiber_kcp.Recv.Delivery.{Holds}

-- The arrivals of `ikcp_parse_data`, one behind the other.
unfoldable pub arrive : Ikcpcb → List Segment → Ikcpcb
arrive k [] = k
arrive k (s ∷ l) = arrive (parse_data k s) l

pub arrive-IsReceiving :
    (k : Ikcpcb) (l : List Segment)
    → IsReceiving k
    → All (λ s. s.sn < u32_mod) l
    → IsReceiving (arrive k l)
unfolding arrive
arrive-IsReceiving k [] r a = r
arrive-IsReceiving k (s ∷ l) r a =
    arrive-IsReceiving (parse_data k s) l (parse_data-IsReceiving k s r a.0) a.1

pub HasSn-append : (sn : ℕ) (a b : List Segment) → HasSn sn (a ++ b) → HasSn sn a ⊎ HasSn sn b
HasSn-append sn [] b h = inr h
HasSn-append sn (s ∷ a) b (inl e) = inl (inl e)
HasSn-append sn (s ∷ a) b (inr h) = elim (HasSn-append sn a b h) [
  | inl x ↦ inl (inr x)
  | inr y ↦ inr y
]

HasSn-between :
    (sn : ℕ) (new : Segment) (a b : List Segment)
    → HasSn sn (a ++ b) ⊎ (new.sn ≡ sn)
    → HasSn sn (a ++ (new ∷ b))
HasSn-between sn new [] b (inl h) = inr h
HasSn-between sn new [] b (inr e) = inl e
HasSn-between sn new (s ∷ a) b (inl (inl e)) = inl e
HasSn-between sn new (s ∷ a) b (inl (inr h)) = inr (HasSn-between sn new a b (inl h))
HasSn-between sn new (s ∷ a) b (inr e) = inr (HasSn-between sn new a b (inr e))

pub HasSn-Holds :
    (sn : ℕ) (new : Segment) (buf l : List Segment)
    → Holds new buf l
    → HasSn sn buf ⊎ (new.sn ≡ sn)
    → HasSn sn l
HasSn-Holds sn new buf l (inl (h, e)) (inl x) = subst (HasSn sn) (sym e) x
HasSn-Holds sn new buf l (inl (h, e)) (inr x) =
    subst (HasSn sn) (sym e) (subst (λ n. HasSn n buf) x h)
HasSn-Holds sn new buf l (inr (h, (a, b, p, q))) (inl x) =
    subst (HasSn sn) (sym q) (HasSn-between sn new a b (inl (subst (HasSn sn) p x)))
HasSn-Holds sn new buf l (inr (h, (a, b, p, q))) (inr x) =
    subst (HasSn sn) (sym q) (HasSn-between sn new a b (inr x))

module _ (P : Segment → Type 0) where
  pub All-split : (a b : List Segment) → All P (a ++ b) → All P a × All P b
  All-split [] b h = (tt, h)
  All-split (s ∷ a) b h = ((h.0, (All-split a b h.1).0), (All-split a b h.1).1)

  All-between :
      (new : Segment) (a b : List Segment) → P new → All P (a ++ b) → All P (a ++ (new ∷ b))
  All-between new [] b n h = (n, h)
  All-between new (s ∷ a) b n h = (h.0, All-between new a b n h.1)

  pub All-Holds :
      (new : Segment) (buf l : List Segment) → Holds new buf l → P new → All P buf → All P l
  All-Holds new buf l (inl (h, e)) n a = subst (All P) (sym e) a
  All-Holds new buf l (inr (h, (x, y, p, q))) n a =
      subst (All P) (sym q) (All-between new x y n (subst (All P) p a))

-- A number among consecutive ones lies in their range.
pub Consecutive-HasSn :
    (base m sn : ℕ) (l : List Segment)
    → base < u32_mod
    → m + length l ≤ 2 ^ 31
    → Consecutive (add32 base m) l
    → HasSn sn l
    → sub32 sn base < m + length l
Consecutive-HasSn base m sn [] hb hl c h = elim h [ ]
Consecutive-HasSn base m sn (s ∷ l) hb hl c (inl e) = ground arith
Consecutive-HasSn base m sn (s ∷ l) hb hl c (inr h) = omega (
  arith,
  Consecutive-HasSn base (m + 1) sn l hb (omega arith)
      (subst (λ n. Consecutive n l) (omega arith) c.1) h,
)

pub Consecutive-bound :
    (base m n : ℕ) (l : List Segment)
    → base < u32_mod
    → m ≤ n
    → n < 2 ^ 31
    → Consecutive (add32 base m) l
    → All (λ s. sub32 s.sn base < n) l
    → m + length l ≤ n
Consecutive-bound base m n [] hb hm hn c a = omega arith
Consecutive-bound base m n (s ∷ l) hb hm hn c a = omega (
  arith,
  Consecutive-bound base (m + 1) n l hb (ground arith) hn
      (subst (λ n. Consecutive n l) (omega arith) c.1) a.1,
)
