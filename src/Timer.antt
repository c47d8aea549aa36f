-- ===== src/Timer.antt =====
-- ktimer.h and ktimer.cpp. A timer, and the ordered set of timers of `KTimerManager`.
-- `std::set` is a list in the order of its comparator; it is searched and filled by its contract,
-- which holds as long as the order is intact. A timer that the set holds is shared with the caller
-- that added it: `alter` is such a caller's change, in place. A callback is a value of any type.
pub mod Order
pub mod Add
pub mod Split
pub mod Expiry
pub mod Due
pub mod Reachable
mod Tests
use fiber_kcp.Prelude.{
  ℕ, zero, suc, ◌+◌, ◌-◌, ◌%◌, ◌^◌, Bool, true, false, not, ◌&&◌, ◌||◌, Option, none, some, List,
  [], ◌∷◌, ◌++◌, ltb, leb, ◌==◌, if◌then◌else◌,
}

abbrev pub u64_mod : ℕ
u64_mod = 2 ^ 64

unfoldable pub add64 : ℕ → ℕ → ℕ
add64 a b = (a + b) % u64_mod

pub record KTimer {ℓ} (A : Type ℓ) : Type ℓ where
  pub tid : ℕ
  pub time : ℕ
  pub recycle_time : ℕ
  pub cb : Option A
  pub unique_id : ℕ

-- The set, whether the front was announced since the last look at it, and `gUniqueIdCount`.
pub record KTimerManager {ℓ} (A : Type ℓ) : Type ℓ where
  pub timers : List (KTimer A)
  pub tickle : Bool
  pub id_count : ℕ

module _ {ℓ} {A : Type ℓ} where
  -- ktimer.cpp:26-33 with `CurrentTime()` at `now`, and the counter before it.
  unfoldable pub new_timer : ℕ → ℕ → ℕ → Option A → ℕ → ℕ → KTimer A
  new_timer now count ms callback recycle thread = record {
    tid = thread;
    time = add64 now ms;
    recycle_time = recycle;
    cb = callback;
    unique_id = add64 count 1;
  }

  -- `operator=` writes all but the thread.
  pub assign : KTimer A → KTimer A → KTimer A
  assign t other = record other { tid = t.tid }

  unfoldable pub cancel : KTimer A → KTimer A
  cancel t = record t { time = 0; cb = none; recycle_time = 0 }

  pub set_callback : Option A → KTimer A → KTimer A
  set_callback callback t = record t { cb = callback }

  pub set_next_time : ℕ → KTimer A → KTimer A
  set_next_time ms t = record t { time = ms }

  pub set_recycle_time : ℕ → KTimer A → KTimer A
  set_recycle_time ms t = record t { recycle_time = ms }

  -- ktimer.cpp:79-84.
  pub update_timer : KTimer A → KTimer A
  update_timer t =
      if t.recycle_time == 0 then t else record t { time = add64 t.time t.recycle_time }

  -- ktimer.cpp:86-97; `onReset` is empty.
  pub reset_timer : ℕ → ℕ → Option A → ℕ → ℕ → KTimer A → KTimer A
  reset_timer now ms none recycle thread t = t
  reset_timer now ms (some f) recycle thread t =
      if ltb ms t.time
      then t
      else record t { time = add64 now ms; cb = some f; recycle_time = recycle; tid = thread }

  -- ktimer.h:63-66.
  pub earlier : KTimer A → KTimer A → Bool
  earlier left right =
      if left.time == right.time
      then ltb left.unique_id right.unique_id
      else ltb left.time right.time

  -- ktimer.h:52-68, where a null pointer comes first.
  pub comparator : Option (KTimer A) → Option (KTimer A) → Bool
  comparator none none = false
  comparator none (some right) = true
  comparator (some left) none = false
  comparator (some left) (some right) = earlier left right

  -- `std::set::insert`: an element that compares equal to one of the set is not inserted.
  pub insert : KTimer A → List (KTimer A) → List (KTimer A)
  insert t [] = t ∷ []
  insert t (x ∷ xs) =
      let rest = insert t xs in
      if earlier t x then t ∷ x ∷ xs else if earlier x t then x ∷ rest else x ∷ xs

  -- Whether the place of `t` in the set, after its insertion, is `begin()`.
  pub at_front : KTimer A → List (KTimer A) → Bool
  at_front t [] = true
  at_front t (x ∷ xs) = not (earlier x t)

  -- ktimer.cpp:198-218. The result tells whether `onTimerInsertedAtFront` is called.
  pub add_pointer : KTimerManager A → Option (KTimer A) → KTimerManager A × Option (KTimer A) × Bool
  add_pointer m none = (m, none, false)
  add_pointer m (some t) =
      let front = at_front t m.timers && not m.tickle in
      (record m { timers = insert t m.timers; tickle = m.tickle || front }, some t, front)

  -- ktimer.cpp:137-141; `allocated` is the outcome of `new (std::nothrow)`.
  unfoldable pub add_timer :
      Bool → KTimerManager A → ℕ → ℕ → Option A → ℕ → ℕ → KTimerManager A × Option (KTimer A) × Bool
  add_timer false m now ms callback recycle thread = add_pointer m none
  add_timer true m now ms callback recycle thread =
      add_pointer (record m { id_count = add64 m.id_count 1 })
        (some (new_timer now m.id_count ms callback recycle thread))

  -- ktimer.cpp:156-166.
  pub erase_id : ℕ → List (KTimer A) → List (KTimer A)
  erase_id id [] = []
  erase_id id (t ∷ ts) = let rest = erase_id id ts in if t.unique_id == id then ts else t ∷ rest

  pub del_timer : KTimerManager A → ℕ → KTimerManager A
  del_timer m id = record m { timers = erase_id id m.timers }

  -- A change of the timer with the number `id` by one who shares it.
  pub alter : (KTimer A → KTimer A) → ℕ → List (KTimer A) → List (KTimer A)
  alter change id [] = []
  alter change id (t ∷ ts) = (if t.unique_id == id then change t else t) ∷ alter change id ts

  -- ktimer.cpp:180-185: the timers that leave the set, and those that stay.
  pub split_expired : ℕ → List (KTimer A) → List (KTimer A) × List (KTimer A)
  split_expired now [] = ([], [])
  split_expired now (t ∷ ts) =
      let (gone, rest) = split_expired now ts in
      if leb t.time now then (t ∷ gone, rest) else ([], t ∷ ts)

  -- ktimer.cpp:190-193.
  pub renew : KTimer A → List (KTimer A) → List (KTimer A)
  renew t set = if t.recycle_time == 0 then set else insert (update_timer t) set

  -- ktimer.cpp:188-194.
  pub fire : Option A → KTimer A → List (KTimer A) → List (A × ℕ) → List (KTimer A) × List (A × ℕ)
  fire none t set cbs = (set, cbs)
  fire (some f) t set cbs = (renew t set, cbs ++ ((f, t.tid) ∷ []))

  -- ktimer.cpp:187-195.
  pub run_expired :
      List (KTimer A) → List (KTimer A) → List (A × ℕ) → List (KTimer A) × List (A × ℕ)
  run_expired [] set cbs = (set, cbs)
  run_expired (t ∷ ts) set cbs = let (set', cbs') = fire t.cb t set cbs in run_expired ts set' cbs'

  -- ktimer.cpp:168-196. On an empty set the early return changes nothing either.
  pub list_expired_timer : KTimerManager A → ℕ → List (A × ℕ) → KTimerManager A × List (A × ℕ)
  list_expired_timer m now cbs =
      let (gone, rest) = split_expired now m.timers in
      let (set, cbs') = run_expired gone rest cbs in (record m { timers = set }, cbs')

  -- ktimer.cpp:125-134.
  pub near : ℕ → List (KTimer A) → ℕ
  near now [] = u64_mod - 1
  near now (t ∷ ts) = if leb t.time now then 0 else t.time - now

  -- ktimer.cpp:121-135.
  unfoldable pub get_near_timeout : KTimerManager A → ℕ → KTimerManager A × ℕ
  get_near_timeout m now = (record m { tickle = false }, near now m.timers)

-- ktimer.cpp:143-149: a callback acts on a state, and is skipped once its condition is gone.
pub on_timer {ℓ} : {S : Type ℓ} → Bool → (S → S) → S → S
on_timer false callback s = s
on_timer true callback s = callback s

-- ktimer.cpp:151-154, for callbacks that are steps of a state and a condition that `lock` reads.
pub add_condition_timer {ℓ} :
    {S : Type ℓ}
    → Bool
    → KTimerManager (S → S)
    → ℕ
    → ℕ
    → (S → S)
    → (S → Bool)
    → ℕ
    → KTimerManager (S → S) × Option (KTimer (S → S)) × Bool
add_condition_timer allocated m now ms callback lock recycle =
    add_timer allocated m now ms (some (λ s. on_timer (lock s) callback s)) recycle 0
