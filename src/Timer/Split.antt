-- ===== src/Timer/Split.antt =====
-- What is due at a time, what it leaves, and how the set is split there, ktimer.cpp:179-185.
use fiber_kcp.Prelude.{
  ℕ, ◌≡◌, ◌≢◌, refl, ap, sym, inl, inr, true, false, Option, none, some, List, [], ◌∷◌, ◌++◌,
  append_assoc, All, All-left, All-right, arith, leb, ◌==◌, if◌then◌else◌, if_cases,
}
use fiber_kcp.Timer.{KTimer, update_timer, split_expired}
use fiber_kcp.Timer.Order.{IsFresh, IsBefore, IsOrdered}

module _ {ℓ} {A : Type ℓ} where
  abbrev pub bound_to : ℕ → Option A → List (A × ℕ)
  bound_to thread none = []
  bound_to thread (some f) = (f, thread) ∷ []

  -- The callback of a timer, if it has one and is due, with the thread that it is bound to.
  abbrev pub firing : ℕ → KTimer A → List (A × ℕ)
  firing now t = if leb t.time now then bound_to t.tid t.cb else []

  -- The callbacks that are due among all timers.
  abbrev pub due : ℕ → List (KTimer A) → List (A × ℕ)
  due now [] = []
  due now (t ∷ ts) = firing now t ++ due now ts

  abbrev pub renewed : KTimer A → List (KTimer A)
  renewed t = if t.recycle_time == 0 then [] else update_timer t ∷ []

  abbrev pub unless_cancelled : Option A → List (KTimer A) → List (KTimer A)
  unless_cancelled none ts = []
  unless_cancelled (some f) ts = ts

  -- What becomes of a timer: one that is due goes, but comes back a period later if it recurs and
  -- was not cancelled.
  abbrev pub survivors : ℕ → KTimer A → List (KTimer A)
  survivors now t = if leb t.time now then unless_cancelled t.cb (renewed t) else t ∷ []

  abbrev pub surviving : ℕ → List (KTimer A) → List (KTimer A)
  surviving now [] = []
  surviving now (t ∷ ts) = survivors now t ++ surviving now ts

  -- Behind a timer that is not due yet, none is.
  pub quiet :
      (now : ℕ) (t : KTimer A) (ts : List (KTimer A))
      → leb t.time now ≡ false
      → All (IsBefore t) ts
      → (due now ts ≡ []) × (surviving now ts ≡ ts)
  quiet now t [] e b = (refl, refl)
  quiet now t (u ∷ ts) e b =
      let (d, s) = quiet now t ts e b.1 in let e' = later in (rw (e', d) refl, rw (e', s) refl)
    where
      later : leb u.time now ≡ false
      later = elim b.0 [ inl h ↦ ground arith | inr h ↦ ground (arith, h.0) ]

  -- The prefix that leaves the set is all that is due.
  abbrev pub Splits : ℕ → List (KTimer A) → List (KTimer A) × List (KTimer A) → Type ℓ
  Splits now ts (gone, rest) =
      (ts ≡ gone ++ rest)
      × All (λ t. leb t.time now ≡ true) gone
      × (due now rest ≡ [])
      × (surviving now rest ≡ rest)

  pub split_expired-Splits :
      (now : ℕ) (ts : List (KTimer A)) → IsOrdered ts → Splits now ts (split_expired now ts)
  unfolding split_expired
  split_expired-Splits now [] o = (refl, tt, refl, refl)
  split_expired-Splits now (t ∷ ts) o =
      let (e, a, d, s) = split_expired-Splits now ts o.2 in
      if_cases (Splits now (t ∷ ts)) (leb t.time now)
        (t ∷ (split_expired now ts).0, (split_expired now ts).1) ([], t ∷ ts)
        (λ x. (ap (◌∷◌ t) e, (x, a), d, s))
        (λ x. let (d', s') = quiet now t ts x o.0 in (refl, tt, rw (x, d') refl, rw (x, s') refl))

  pub due-append :
      (now : ℕ) (xs ys : List (KTimer A)) → due now (xs ++ ys) ≡ due now xs ++ due now ys
  due-append now [] ys = refl
  due-append now (x ∷ xs) ys =
      rw (due-append now xs ys) (sym (append_assoc (firing now x) (due now xs) (due now ys)))

  pub surviving-append :
      (now : ℕ) (xs ys : List (KTimer A))
      → surviving now (xs ++ ys) ≡ surviving now xs ++ surviving now ys
  surviving-append now [] ys = refl
  surviving-append now (x ∷ xs) ys =
      rw (surviving-append now xs ys)
        (sym (append_assoc (survivors now x) (surviving now xs) (surviving now ys)))

  pub split-IsOrdered :
      (xs ys : List (KTimer A))
      → IsOrdered (xs ++ ys)
      → IsOrdered xs × IsOrdered ys × All (λ t. IsFresh t.unique_id ys) xs
  split-IsOrdered [] ys o = (tt, o, tt)
  split-IsOrdered (x ∷ xs) ys o =
      let (p, q, f) = split-IsOrdered xs ys o.2 in
      (
        (All-left (IsBefore x) xs ys o.0, All-left (λ u. u.unique_id ≢ x.unique_id) xs ys o.1, p),
        q,
        (All-right (λ u. u.unique_id ≢ x.unique_id) xs ys o.1, f),
      )
