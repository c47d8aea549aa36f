-- ===== src/Recv/Order.antt =====
-- The order of `rcv_buf`, and the backward walk of `ikcp_parse_data` that keeps it.
use fiber_kcp.Prelude.{
  ℕ, suc, ◌^◌, ◌≤◌, ◌<◌, ◌≡◌, refl, ap, ◌⊎◌, inl, inr, List, [], ◌∷◌, ◌++◌, arith, is_pos,
  Bool-cases, ◌==◌, if◌then◌else◌,
}
use fiber_kcp.Word.{u32_mod, sub32, itimediff}
use fiber_kcp.Word.Serial.{itimediff-is_pos}
use fiber_kcp.Wire.{Segment}
use fiber_kcp.Recv.{Walk, repeated, placed, passed, walk_back}

-- Seen from `base`, the numbers of the segments rise strictly from `lo` on, within half the space.
abbrev pub Ascending : ℕ → ℕ → List Segment → Type 0
Ascending base lo [] = Unit {0}
Ascending base lo (s ∷ buf) =
    (s.sn < u32_mod)
    × (lo ≤ sub32 s.sn base)
    × (sub32 s.sn base < 2 ^ 31)
    × Ascending base (suc (sub32 s.sn base)) buf

-- Some segment of the list bears the number.
abbrev pub HasSn : ℕ → List Segment → Type 0
HasSn sn [] = ⊥
HasSn sn (s ∷ buf) = (s.sn ≡ sn) ⊎ HasSn sn buf

abbrev pub Inserted : Segment → List Segment → List Segment → Type 0
Inserted new buf l = (a : List Segment) × (b : List Segment) × (buf ≡ a ++ b) × (l ≡ a ++ (new ∷ b))

pub Ascending-mono :
    (base lo lo' : ℕ) (buf : List Segment)
    → lo' ≤ lo
    → Ascending base lo buf
    → Ascending base lo' buf
Ascending-mono base lo lo' [] h a = tt
Ascending-mono base lo lo' (s ∷ buf) h a = (a.0, omega arith, a.2, a.3)

-- What the walk may answer.
abbrev pub Walked : ℕ → ℕ → Segment → List Segment → Walk → Type 0
Walked base lo new buf repeated = HasSn new.sn buf
Walked base lo new buf (placed l) =
    (¬ HasSn new.sn buf) × (lo ≤ sub32 new.sn base) × Ascending base lo l × Inserted new buf l
Walked base lo new buf passed = (¬ HasSn new.sn buf) × Ascending base (suc (sub32 new.sn base)) buf

module _ (base : ℕ) (new : Segment) (hb : base < u32_mod) (hn : new.sn < u32_mod)
    (hd : sub32 new.sn base < 2 ^ 31) where
  not_here :
      (s : Segment) (rest : List Segment)
      → (s.sn ≡ new.sn → ⊥)
      → ¬ HasSn new.sn rest
      → ¬ HasSn new.sn (s ∷ rest)
  not_here s rest n m (inl e) = n e
  not_here s rest n m (inr h) = m h

  walk_stop :
      (lo : ℕ) (s : Segment) (rest : List Segment)
      → Ascending base lo (s ∷ rest)
      → Walked base (suc (sub32 s.sn base)) new rest passed
      → Walked base lo new (s ∷ rest) (
          if s.sn == new.sn
          then repeated
          else if is_pos (itimediff new.sn s.sn)
          then placed (s ∷ new ∷ rest)
          else passed)
  walk_stop lo s rest a p = elim (Bool-cases (s.sn == new.sn)) [
    | inl same ↦ rw same (inl (ground arith))
    | inr other ↦ rw other (elim (Bool-cases (is_pos (itimediff new.sn s.sn))) [
      | inl after ↦ rw after (
        not_here s rest (λ e. ground arith) p.0,
        (ground (arith, itimediff-is_pos base new.sn s.sn)),
        (a.0, a.1, a.2, (hn, ground (arith, itimediff-is_pos base new.sn s.sn), hd, p.1)),
        (s ∷ [], rest, refl, refl),
      )
      | inr before ↦ rw before (
        not_here s rest (λ e. ground arith) p.0,
        (a.0, ground (arith, itimediff-is_pos base new.sn s.sn), a.2, a.3),
      )
    ])
  ]

  walk_step :
      (lo : ℕ) (s : Segment) (rest : List Segment) (w : Walk)
      → Ascending base lo (s ∷ rest)
      → walk_back new rest ≡ w
      → Walked base (suc (sub32 s.sn base)) new rest w
      → Walked base lo new (s ∷ rest) (walk_back new (s ∷ rest))
  unfolding walk_back
  walk_step lo s rest repeated a e p = rw e (inr p)
  walk_step lo s rest (placed l) a e p =
      rw e (not_here s rest (λ e. ground arith) p.0, omega arith, (a.0, a.1, a.2, p.2), deeper p.3)
    where
      deeper : Inserted new rest l → Inserted new (s ∷ rest) (s ∷ l)
      deeper (x, y, q, r) = (s ∷ x, y, ap (◌∷◌ s) q, ap (◌∷◌ s) r)
  walk_step lo s rest passed a e p = rw e (walk_stop lo s rest a p)

  -- The walk keeps the order, tells whether the number is there, and loses nothing.
  pub walk_back-Walked :
      (lo : ℕ) (buf : List Segment)
      → Ascending base lo buf
      → Walked base lo new buf (walk_back new buf)
  unfolding walk_back
  walk_back-Walked lo [] a = (λ h. h, tt)
  walk_back-Walked lo (s ∷ rest) a =
      walk_step lo s rest (walk_back new rest) a refl
        (walk_back-Walked (suc (sub32 s.sn base)) rest a.3)
