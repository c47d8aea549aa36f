-- ===== src/Timer/Due.antt =====
-- `getNearTimeout` against the timers that are due, and what a cancellation does to the order.
use fiber_kcp.Prelude.{
  ℕ, ◌+◌, ◌<◌, ◌≡◌, ◌≢◌, refl, sym, ◌∙◌, subst, ◌⊎◌, inl, inr, false, List, [], ◌∷◌, All, arith,
  Bool-cases, leb, ◌==◌,
}
use fiber_kcp.Timer.{KTimer, KTimerManager, cancel, alter, near, get_near_timeout}
use fiber_kcp.Timer.Order.{IsFresh, IsBefore, IsOrdered}
use fiber_kcp.Timer.Split.{due, surviving, quiet}

module _ {ℓ} {A : Type ℓ} where
  near-due :
      (now d : ℕ) (ts : List (KTimer A))
      → IsOrdered ts
      → d < near now ts
      → (due (now + d) ts ≡ []) × (surviving (now + d) ts ≡ ts)
  unfolding near
  near-due now d [] o h = (refl, refl)
  near-due now d (t ∷ ts) o h =
      let e = not_due in let (p, q) = quiet (now + d) t ts e o.0 in (rw (e, p) refl, rw (e, q) refl)
    where
      not_due : leb t.time (now + d) ≡ false
      not_due = ground arith

  near_reached :
      (now : ℕ) (ts : List (KTimer A)) → ts ≢ [] → ¬ All (λ t. now + near now ts < t.time) ts
  unfolding near
  near_reached now [] n a = n refl
  near_reached now (t ∷ ts) n a = ground (arith, a.0)

  -- In a set that is in order, until the time that getNearTimeout returns has passed no timer is
  -- due and every one would stay, and when it has, one is due, unless there is none.
  pub get_near_timeout_exact :
      (m : KTimerManager A) (now d : ℕ)
      → IsOrdered m.timers
      → (d < (get_near_timeout m now).1
          → (due (now + d) m.timers ≡ []) × (surviving (now + d) m.timers ≡ m.timers))
        × (m.timers ≢ [] → ¬ All (λ t. now + (get_near_timeout m now).1 < t.time) m.timers)
  unfolding get_near_timeout
  get_near_timeout_exact m now d o = (near-due now d m.timers o, near_reached now m.timers)

  -- One of the timers has the number.
  abbrev pub HasId : ℕ → List (KTimer A) → Type 0
  HasId id [] = ⊥
  HasId id (t ∷ ts) = (t.unique_id ≡ id) ⊎ HasId id ts

  cancelled_ahead :
      (a : KTimer A) (id : ℕ) (ts : List (KTimer A))
      → 0 < a.time
      → HasId id ts
      → ¬ All (IsBefore a) (alter cancel id ts)
  unfolding cancel alter
  cancelled_ahead a id [] h i b = i
  cancelled_ahead a id (t ∷ ts) h (inl e) b = elim b.0 [
    | inl p ↦ ground (arith, p, e)
    | inr p ↦ ground (arith, p.0, e)
  ]
  cancelled_ahead a id (t ∷ ts) h (inr i) b = cancelled_ahead a id ts h i b.1

  alter_absent : (id : ℕ) (ts : List (KTimer A)) → IsFresh id ts → alter cancel id ts ≡ ts
  unfolding alter
  alter_absent id [] f = refl
  alter_absent id (t ∷ ts) f = rw (alter_absent id ts f.1) (ground (arith, f.0))

  cancel-IsBefore :
      (t : KTimer A) (ts : List (KTimer A)) → All (IsBefore t) ts → All (IsBefore (cancel t)) ts
  unfolding cancel
  cancel-IsBefore t [] b = tt
  cancel-IsBefore t (u ∷ ts) b = (first b.0, cancel-IsBefore t ts b.1)
    where
      first : IsBefore t u → IsBefore (cancel t) u
      first (inl p) = inl (omega arith)
      first (inr p) = elim (Bool-cases (u.time == 0)) [
        | inl z ↦ inr (ground arith, p.1)
        | inr z ↦ inl (ground arith)
      ]

  alter_first :
      (t : KTimer A) (ts : List (KTimer A))
      → IsFresh t.unique_id ts
      → alter cancel t.unique_id (t ∷ ts) ≡ cancel t ∷ ts
  unfolding alter
  alter_first t ts f = rw (alter_absent t.unique_id ts f) (ground arith)

  alter_later :
      (id : ℕ) (t : KTimer A) (ts : List (KTimer A))
      → t.unique_id ≢ id
      → alter cancel id (t ∷ ts) ≡ t ∷ alter cancel id ts
  unfolding alter
  alter_later id t ts n = ground arith

  HasId-other : (id n : ℕ) (ts : List (KTimer A)) → HasId id ts → IsFresh n ts → n ≢ id
  HasId-other id n [] i f = absurd i
  HasId-other id n (t ∷ ts) (inl e) f = λ q. f.0 (e ∙ sym q)
  HasId-other id n (t ∷ ts) (inr i) f = HasId-other id n ts i f.1

  cancel-id : (t : KTimer A) → (cancel t).unique_id ≡ t.unique_id
  unfolding cancel
  cancel-id t = refl

  -- Cancelling the timer at the front of an ordered set keeps the order that std::set relies on;
  -- cancelling any other one, whose time becomes 0 where it stands, breaks it. The first timer has
  -- a time above 0.
  pub cancel_order :
      (t : KTimer A) (ts : List (KTimer A)) (id : ℕ)
      → 0 < t.time
      → HasId id ts
      → IsOrdered (t ∷ ts)
      → IsOrdered (alter cancel t.unique_id (t ∷ ts)) × (¬ IsOrdered (alter cancel id (t ∷ ts)))
  cancel_order t ts id h i o = (
    rw (alter_first t ts o.1) (cancel-IsBefore t ts o.0, rw (cancel-id t) o.1, o.2),
    λ x.
        let y = subst IsOrdered (alter_later id t ts (HasId-other id t.unique_id ts i o.1)) x in
        cancelled_ahead t id ts h i y.0,
  )
