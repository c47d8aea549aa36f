-- ===== src/Timer/Expiry.antt =====
-- `listExpiredTimer`: which callbacks run, and which timers stay.
use mathlib.Core.List.Perm
use mathlib.Core.List.{Perm, perm_middle}
use fiber_kcp.Prelude.{
  ℕ, ◌≡◌, ◌≢◌, refl, ap, sym, ◌∙◌, subst, inl, inr, true, Option, none, some, List, [], ◌∷◌, ◌++◌,
  append-nil, append_assoc, All, arith, Bool-cases, leb, ◌==◌, if_cases,
}
use fiber_kcp.Timer.{
  KTimer, KTimerManager, update_timer, insert, split_expired, renew, fire, run_expired,
  list_expired_timer,
}
use fiber_kcp.Timer.Order.{IsFresh, IsOrdered, insert-Inserts, All-insert}
use fiber_kcp.Timer.Split.{
  bound_to, due, renewed, unless_cancelled, surviving, split_expired-Splits, due-append,
  surviving-append, split-IsOrdered,
}

module _ {ℓ} {A : Type ℓ} where
  update_timer_id : (t : KTimer A) → (update_timer t).unique_id ≡ t.unique_id
  unfolding update_timer
  update_timer_id t = ground arith

  pub renew-All :
      (P : ℕ → Type 0) (t : KTimer A) (set : List (KTimer A))
      → P t.unique_id
      → All (λ u. P u.unique_id) set
      → All (λ u. P u.unique_id) (renew t set)
  unfolding renew
  renew-All P t set p a =
      if_cases (All (λ u. P u.unique_id)) (t.recycle_time == 0) set (insert (update_timer t) set)
        (λ _. a)
        (λ _.
          All-insert (λ u. P u.unique_id) (update_timer t) set (subst P (sym (update_timer_id t)) p)
            a)

  renew-IsFresh :
      (t : KTimer A) (ts set : List (KTimer A))
      → IsFresh t.unique_id ts
      → All (λ x. IsFresh x.unique_id set) ts
      → All (λ x. IsFresh x.unique_id (renew t set)) ts
  renew-IsFresh t [] set f a = tt
  renew-IsFresh t (x ∷ ts) set f a = (
    renew-All (λ n. n ≢ x.unique_id) t set (λ e. f.0 (sym e)) a.0,
    renew-IsFresh t ts set f.1 a.1,
  )

  renew_lem :
      (t : KTimer A) (set : List (KTimer A))
      → IsFresh t.unique_id set
      → IsOrdered set
      → IsOrdered (renew t set) × Perm (renew t set) (renewed t ++ set)
  unfolding renew
  renew_lem t set f o = elim (Bool-cases (t.recycle_time == 0)) [
    | inl e ↦ rw e (o, Perm.rfl)
    | inr e ↦ rw e (insert-Inserts (update_timer t) set (rw (update_timer_id t) f) o)
  ]

  -- What one expired timer does to the set and the list of callbacks, and to whom it is new.
  Fires :
      Option A
      → KTimer A
      → List (KTimer A)
      → List (KTimer A)
      → List (A × ℕ)
      → List (KTimer A) × List (A × ℕ)
      → Type ℓ
  Fires o t ts set cbs (set', cbs') =
      IsOrdered set'
      × Perm set' (unless_cancelled o (renewed t) ++ set)
      × (cbs' ≡ cbs ++ bound_to t.tid o)
      × All (λ x. IsFresh x.unique_id set') ts

  fire-Fires :
      (o : Option A) (t : KTimer A) (ts set : List (KTimer A)) (cbs : List (A × ℕ))
      → IsFresh t.unique_id set
      → IsFresh t.unique_id ts
      → All (λ x. IsFresh x.unique_id set) ts
      → IsOrdered set
      → Fires o t ts set cbs (fire o t set cbs)
  unfolding fire Fires
  fire-Fires none t ts set cbs f g a o = (o, Perm.rfl, sym (append-nil cbs), a)
  fire-Fires (some c) t ts set cbs f g a o =
      let (o', p) = renew_lem t set f o in (o', p, refl, renew-IsFresh t ts set g a)

  renewed_middle :
      (o : Option A) (t : KTimer A) (l set : List (KTimer A))
      → Perm
          (l ++ (unless_cancelled o (renewed t) ++ set))
          ((unless_cancelled o (renewed t) ++ l) ++ set)
  renewed_middle none t l set = Perm.rfl
  renewed_middle (some c) t l set = elim (Bool-cases (t.recycle_time == 0)) [
    | inl e ↦ rw e Perm.rfl
    | inr e ↦ rw e (perm_middle l set)
  ]

  -- What running the expired timers does, `set` being what stays.
  Runs :
      ℕ → List (KTimer A) → List (KTimer A) → List (A × ℕ) → List (KTimer A) × List (A × ℕ) → Type ℓ
  Runs now gone set cbs (set', cbs') =
      IsOrdered set' × Perm set' (surviving now gone ++ set) × (cbs' ≡ cbs ++ due now gone)

  run_expired-Runs :
      (now : ℕ) (gone set : List (KTimer A)) (cbs : List (A × ℕ))
      → All (λ t. leb t.time now ≡ true) gone
      → IsOrdered gone
      → All (λ t. IsFresh t.unique_id set) gone
      → IsOrdered set
      → Runs now gone set cbs (run_expired gone set cbs)
  unfolding run_expired Runs Fires
  run_expired-Runs now [] set cbs d g f o = (o, Perm.rfl, sym (append-nil cbs))
  run_expired-Runs now (t ∷ ts) set cbs d g f o =
      let (o', p, q, f') = fire-Fires t.cb t ts set cbs f.0 g.1 f.1 o in
      let (set', cbs') = fire t.cb t set cbs in
      let (o'', p', q') = run_expired-Runs now ts set' cbs' d.1 g.2 f' o' in
      rw d.0 (
        o'',
        Perm.trans p' (
            Perm.trans (Perm.append_left (surviving now ts) p)
              (renewed_middle t.cb t (surviving now ts) set)),
        q' ∙ ap (λ c. c ++ due now ts) q ∙ append_assoc cbs (bound_to t.tid t.cb) (due now ts),
      )

  -- The ordered set does what a mere collection of timers would: listExpiredTimer hands out the
  -- callbacks of exactly the timers that are due, in the order of their times, behind what the
  -- list held; the set then holds, in order, the timers that are not due and the recurring ones
  -- that were and had a callback, a period on. The timers stand in order and have distinct
  -- numbers.
  pub list_expired_timer_runs :
      (m : KTimerManager A) (now : ℕ) (cbs : List (A × ℕ))
      → IsOrdered m.timers
      → IsOrdered (list_expired_timer m now cbs).0.timers
        × Perm (list_expired_timer m now cbs).0.timers (surviving now m.timers)
        × ((list_expired_timer m now cbs).1 ≡ cbs ++ due now m.timers)
  unfolding list_expired_timer Runs
  list_expired_timer_runs m now cbs o =
      let (gone, rest) = split_expired now m.timers in
      let (e, a, d, s) = split_expired-Splits now m.timers o in
      let (g, r, f) = split-IsOrdered gone rest (subst IsOrdered e o) in
      let (o', p, q) = run_expired-Runs now gone rest cbs a g f r in
      (
        o',
        subst (Perm (run_expired gone rest cbs).0)
            (sym (
              ap (surviving now) e
              ∙ surviving-append now gone rest
              ∙ ap (◌++◌ (surviving now gone)) s))
            p,
        q
            ∙ ap (◌++◌ cbs) (
                sym (
                  ap (due now) e
                  ∙ due-append now gone rest
                  ∙ ap (◌++◌ (due now gone)) d
                  ∙ append-nil (due now gone))),
      )
