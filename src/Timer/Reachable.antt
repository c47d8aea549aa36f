-- ===== src/Timer/Reachable.antt =====
-- The timer managers that calls of the interface lead to.
use fiber_kcp.Prelude.{
  ℕ, ◌-◌, ◌≤◌, ◌<◌, Bool, true, false, Option, none, some, List, [], ◌∷◌, All, All-left, All-right,
  subst,
}
use fiber_kcp.Timer.{
  u64_mod, KTimer, KTimerManager, add_pointer, add_timer, del_timer, split_expired, fire,
  run_expired, list_expired_timer, get_near_timeout,
}
use fiber_kcp.Timer.Add.{IsTimed, add_timer-Adds, del_timer-IsTimed}
use fiber_kcp.Timer.Split.{split_expired-Splits}
use fiber_kcp.Timer.Expiry.{renew-All, list_expired_timer_runs}

-- One call: the counter of timers has not come round, and an allocation may fail.
pub data TimerStep {ℓ} {A : Type ℓ} : KTimerManager A → KTimerManager A → Type ℓ where
  adds :
      (allocated : Bool) (m : KTimerManager A) (now ms : ℕ) (callback : Option A)
      (recycle thread : ℕ)
      → m.id_count < u64_mod - 1
      → TimerStep m (add_timer allocated m now ms callback recycle thread).0
  deletes : (m : KTimerManager A) (id : ℕ) → TimerStep m (del_timer m id)
  expires :
      (m : KTimerManager A) (now : ℕ) (cbs : List (A × ℕ))
      → TimerStep m (list_expired_timer m now cbs).0
  looks : (m : KTimerManager A) (now : ℕ) → TimerStep m (get_near_timeout m now).0

pub data TimerReach {ℓ} {A : Type ℓ} : KTimerManager A → Type ℓ where
  empty_set : (count : ℕ) → TimerReach (record { timers = []; tickle = false; id_count = count })
  one_more : (m m' : KTimerManager A) → TimerReach m → TimerStep m m' → TimerReach m'

module _ {ℓ} {A : Type ℓ} where
  fire-All :
      (P : ℕ → Type 0) (o : Option A) (t : KTimer A) (set : List (KTimer A)) (cbs : List (A × ℕ))
      → P t.unique_id
      → All (λ u. P u.unique_id) set
      → All (λ u. P u.unique_id) (fire o t set cbs).0
  unfolding fire
  fire-All P none t set cbs p a = a
  fire-All P (some f) t set cbs p a = renew-All P t set p a

  run_expired-All :
      (P : ℕ → Type 0) (gone set : List (KTimer A)) (cbs : List (A × ℕ))
      → All (λ u. P u.unique_id) gone
      → All (λ u. P u.unique_id) set
      → All (λ u. P u.unique_id) (run_expired gone set cbs).0
  unfolding run_expired
  run_expired-All P [] set cbs g a = a
  run_expired-All P (t ∷ ts) set cbs g a =
      let (set', cbs') = fire t.cb t set cbs in
      run_expired-All P ts set' cbs' g.1 (fire-All P t.cb t set cbs g.0 a)

  list_expired_timer-IsTimed :
      (m : KTimerManager A) (now : ℕ) (cbs : List (A × ℕ))
      → IsTimed m
      → IsTimed (list_expired_timer m now cbs).0
  unfolding list_expired_timer
  list_expired_timer-IsTimed m now cbs w =
      let (gone, rest) = split_expired now m.timers in
      let e = (split_expired-Splits now m.timers w.0).0 in
      let b = subst (All (λ (u : KTimer A). u.unique_id ≤ m.id_count)) e w.1 in
      (
        (list_expired_timer_runs m now cbs w.0).0,
        run_expired-All (λ n. n ≤ m.id_count) gone rest cbs
            (All-left (λ (u : KTimer A). u.unique_id ≤ m.id_count) gone rest b)
            (All-right (λ (u : KTimer A). u.unique_id ≤ m.id_count) gone rest b),
      )

  TimerStep-IsTimed : {m m' : KTimerManager A} → TimerStep m m' → IsTimed m → IsTimed m'
  unfolding add_timer add_pointer get_near_timeout
  TimerStep-IsTimed (adds false m now ms callback recycle thread h) w = w
  TimerStep-IsTimed (adds true m now ms callback recycle thread h) w =
      (add_timer-Adds m now ms callback recycle thread h w).0
  TimerStep-IsTimed (deletes m id) w = del_timer-IsTimed m id w
  TimerStep-IsTimed (expires m now cbs) w = list_expired_timer-IsTimed m now cbs w
  TimerStep-IsTimed (looks m now) w = w

  -- Timers added, deleted and expired in any order, from an empty set on and until 2^64 - 1 have
  -- been made, while nobody changes one that the set holds: the set stays in the order of its
  -- comparator, and no two of its timers have the same number.
  pub TimerReach-IsTimed : {m : KTimerManager A} → TimerReach m → IsTimed m
  TimerReach-IsTimed (empty_set count) = (tt, tt)
  TimerReach-IsTimed (one_more m m' r s) = TimerStep-IsTimed s (TimerReach-IsTimed r)
