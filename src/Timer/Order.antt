-- ===== src/Timer/Order.antt =====
-- The order of the timers in the set, with distinct numbers, and insertion into it.
use mathlib.Core.List.Perm
use mathlib.Core.List.{Perm}
use fiber_kcp.Prelude.{
  ℕ, ◌<◌, ◌≡◌, ◌≢◌, sym, ◌⊎◌, inl, inr, true, false, List, [], ◌∷◌, All, arith, if◌then◌else◌,
  if_cases,
}
use fiber_kcp.Timer.{KTimer, earlier, insert}

-- No timer of the list has the number.
abbrev pub IsFresh {ℓ} : {A : Type ℓ} → ℕ → List (KTimer A) → Type 0
IsFresh id ts = All (λ t. t.unique_id ≢ id) ts

abbrev pub IsBefore {ℓ} : {A : Type ℓ} → KTimer A → KTimer A → Type 0
IsBefore a b = (a.time < b.time) ⊎ ((a.time ≡ b.time) × (a.unique_id < b.unique_id))

-- The timers stand in the order of the comparator and have distinct numbers.
abbrev pub IsOrdered {ℓ} : {A : Type ℓ} → List (KTimer A) → Type 0
IsOrdered [] = Unit
IsOrdered (t ∷ ts) = All (IsBefore t) ts × IsFresh t.unique_id ts × IsOrdered ts

module _ {ℓ} {A : Type ℓ} where
  pub earlier-IsBefore : (a b : KTimer A) → earlier a b ≡ true → IsBefore a b
  unfolding earlier
  earlier-IsBefore a b e = ground arith

  pub IsBefore-earlier : (a b : KTimer A) → IsBefore a b → earlier a b ≡ true
  unfolding earlier
  IsBefore-earlier a b h = ground arith

  pub not_earlier-IsBefore :
      (a b : KTimer A) → a.unique_id ≢ b.unique_id → earlier a b ≡ false → IsBefore b a
  unfolding earlier
  not_earlier-IsBefore a b n e = ground arith

  IsBefore-trans : (a b c : KTimer A) → IsBefore a b → IsBefore b c → IsBefore a c
  IsBefore-trans a b c (inl p) (inl q) = inl (omega arith)
  IsBefore-trans a b c (inl p) (inr q) = inl (omega (arith, q.0))
  IsBefore-trans a b c (inr p) (inl q) = inl (omega (arith, p.0))
  IsBefore-trans a b c (inr p) (inr q) = inr (omega (arith, p.0, q.0), omega (arith, p.1, q.1))

  pub IsBefore-asym : (a b : KTimer A) → IsBefore a b → ¬ IsBefore b a
  IsBefore-asym a b (inl p) (inl q) = omega arith
  IsBefore-asym a b (inl p) (inr q) = omega (arith, q.0)
  IsBefore-asym a b (inr p) (inl q) = omega (arith, p.0)
  IsBefore-asym a b (inr p) (inr q) = omega (arith, p.1, q.1)

  pub All-IsBefore-mono :
      (a b : KTimer A) (ts : List (KTimer A))
      → IsBefore a b
      → All (IsBefore b) ts
      → All (IsBefore a) ts
  All-IsBefore-mono a b [] h q = tt
  All-IsBefore-mono a b (t ∷ ts) h q = (IsBefore-trans a b t h q.0, All-IsBefore-mono a b ts h q.1)

  pub All-insert :
      (P : KTimer A → Type 0) (t : KTimer A) (ts : List (KTimer A))
      → P t
      → All P ts
      → All P (insert t ts)
  unfolding insert
  All-insert P t [] p q = (p, tt)
  All-insert P t (x ∷ xs) p q =
      if_cases (All P) (earlier t x) (t ∷ x ∷ xs) (if earlier x t then x ∷ insert t xs else x ∷ xs)
        (λ _. (p, q))
        (λ _.
          if_cases (All P) (earlier x t) (x ∷ insert t xs) (x ∷ xs)
            (λ _. (q.0, All-insert P t xs p q.1)) (λ _. q))

  pub not_earlier-earlier :
      (a b : KTimer A) → a.unique_id ≢ b.unique_id → earlier a b ≡ false → earlier b a ≡ true
  not_earlier-earlier a b n e = IsBefore-earlier b a (not_earlier-IsBefore a b n e)

  -- A timer with a number of its own finds its place, and the set holds it besides what it held.
  abbrev pub Inserts : KTimer A → List (KTimer A) → List (KTimer A) → Type ℓ
  Inserts t ts set = IsOrdered set × Perm set (t ∷ ts)

  pub insert-Inserts :
      (t : KTimer A) (ts : List (KTimer A))
      → IsFresh t.unique_id ts
      → IsOrdered ts
      → Inserts t ts (insert t ts)
  unfolding insert
  insert-Inserts t [] f o = ((tt, tt, tt), Perm.rfl)
  insert-Inserts t (x ∷ xs) f o =
      if_cases (Inserts t (x ∷ xs)) (earlier t x) (t ∷ x ∷ xs)
        (if earlier x t then x ∷ insert t xs else x ∷ xs)
        (λ e.
          let h = earlier-IsBefore t x e in (((h, All-IsBefore-mono t x xs h o.0), f, o), Perm.rfl))
        (λ e.
          if_cases (Inserts t (x ∷ xs)) (earlier x t) (x ∷ insert t xs) (x ∷ xs)
            (λ e'.
              let (o', p) = insert-Inserts t xs f.1 o.2 in
              (
                (
                  All-insert (IsBefore x) t xs (earlier-IsBefore x t e') o.0,
                  All-insert (λ u. u.unique_id ≢ x.unique_id) t xs (λ q. f.0 (sym q)) o.1,
                  o',
                ),
                Perm.trans (Perm.cons x p) (Perm.swap t x xs),
              ))
            (λ e'. absurd (clash e e')))
    where
      clash : earlier t x ≡ false → earlier x t ≡ false → ⊥
      clash e e' = let h = not_earlier-earlier t x (λ q. f.0 (sym q)) e in absurd cc
