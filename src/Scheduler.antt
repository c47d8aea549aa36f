-- ===== src/Scheduler.antt =====
-- kschedule.h and kschedule.cpp:137-170. The queue of tasks that threads share, and how a thread
-- takes one. `tickle` is virtual; it is counted. The lock of the queue makes each access to it one
-- step. An operation that fails an assertion returns `none`.
pub mod First
pub mod Loop
use fiber_kcp.Prelude.{
  ℕ, zero, suc, ◌+◌, ◌-◌, ◌*◌, Bool, true, false, not, ◌&&◌, ◌||◌, Option, none, some, List, [],
  ◌∷◌, ◌++◌, take, ltb, leb, ◌==◌, if◌then◌else◌, ℤ, pos, negsuc,
}
use fiber_kcp.Word.{add32, sub32}
use fiber_kcp.Timer.{add64}
use fiber_kcp.Fiber.{FiberState, ready, hold, exec, term, except, is_exec, is_over, is_ready, put}

-- `FiberBindThread`.
pub record Task {ℓ} (A : Type ℓ) : Type ℓ where
  pub fiber : Option ℕ
  pub cb : Option A
  pub tid : ℤ

-- `states` are the states of the fibers, `fiber_id` the number of the last one, and `tickles` counts
-- the calls of `tickle`.
pub record Scheduler {ℓ} (A : Type ℓ) : Type ℓ where
  pub queue : List (Task A)
  pub threads : List ℕ
  pub thread_count : ℕ
  pub root_thread : ℤ
  pub root_fiber : Option ℕ
  pub stopping_flag : Bool
  pub active : ℕ
  pub idle : ℕ
  pub states : ℕ → FiberState
  pub fiber_id : ℕ
  pub tickles : ℕ

abbrev pub is_some {ℓ} : {B : Type ℓ} → Option B → Bool
is_some none = false
is_some (some b) = true

abbrev pub is_nil {ℓ} : {B : Type ℓ} → List B → Bool
is_nil [] = true
is_nil (b ∷ bs) = false

-- kschedule.cpp:146, the negation: the task may run in the thread.
pub fits : ℤ → ℕ → Bool
fits (pos zero) me = true
fits (pos (suc n)) me = suc n == me
fits (negsuc n) me = false

-- What the walk of the queue comes to: an assertion fails, no task can run, or the task `taken` can,
-- which leaves `rest`. `other` tells whether a task of another thread was passed, `more` whether
-- tasks stand behind the one taken.
pub data Search {ℓ} (A : Type ℓ) : Type ℓ where
  failed : Search A
  missing : (other : Bool) → Search A
  found : (taken : Task A) (rest : List (Task A)) (other more : Bool) → Search A

module _ {ℓ} {A : Type ℓ} where
  -- kschedule.h:100.
  abbrev pub is_task : Task A → Bool
  is_task t = is_some t.fiber || is_some t.cb

  abbrev pub tickle : Scheduler A → Scheduler A
  tickle s = record s { tickles = suc s.tickles }

  -- kschedule.h:96-104. The result tells whether the queue was empty.
  pub schedule_no_lock : Task A → Scheduler A → Scheduler A × Bool
  schedule_no_lock t s =
      (if is_task t then record s { queue = s.queue ++ (t ∷ []) } else s, is_nil s.queue)

  pub tickle_if : Bool → Scheduler A → Scheduler A
  tickle_if needed s = if needed && ltb 0 s.thread_count then tickle s else s

  -- kschedule.h:36-47.
  unfoldable pub schedule : Task A → Scheduler A → Scheduler A
  schedule t s = let (s', needed) = schedule_no_lock t s in tickle_if needed s'

  -- kschedule.h:55-58, on callbacks with their threads.
  pub schedule_each : List (A × ℕ) → Bool → Scheduler A → Scheduler A × Bool
  schedule_each [] needed s = (s, needed)
  schedule_each (c ∷ cs) needed s =
      let (s', empty) =
        schedule_no_lock (record { fiber = none; cb = some c.0; tid = pos c.1 }) s in
      schedule_each cs (empty || needed) s'

  -- kschedule.h:49-63.
  unfoldable pub schedule_range : List (A × ℕ) → Scheduler A → Scheduler A
  schedule_range cs s = let (s', needed) = schedule_each cs false s in tickle_if needed s'

  -- kschedule.cpp:153.
  pub is_running : (ℕ → FiberState) → Task A → Bool
  is_running states t = elim t.fiber [ none ↦ false | some f ↦ is_exec (states f) ]

  pub pass_over : Task A → Bool → Search A → Search A
  pass_over t other failed = failed
  pass_over t other (missing o) = missing (other || o)
  pass_over t other (found u rest o more) = found u (t ∷ rest) (other || o) more

  -- kschedule.cpp:144-165.
  pub search_queue : (ℕ → FiberState) → ℕ → List (Task A) → Search A
  search_queue states me [] = missing false
  search_queue states me (t ∷ ts) =
      let later = search_queue states me ts in
      if not (fits t.tid me)
      then pass_over t true later
      else if not (is_task t)
      then failed
      else if is_running states t
      then pass_over t false later
      else found t ts false (not (is_nil ts))

  -- kschedule.cpp:159-170: the task, if there is one, and the scheduler behind the tickle.
  pub took : Search A → Scheduler A → Option (Option (Task A) × Scheduler A)
  took failed s = none
  took (missing other) s = some (none, if other then tickle s else s)
  took (found t rest other more) s =
      let s' = record s { queue = rest; active = add32 s.active 1 } in
      some (some t, if other || more then tickle s' else s')

  unfoldable pub take_task : ℕ → Scheduler A → Option (Option (Task A) × Scheduler A)
  take_task me s = took (search_queue s.states me s.queue) s
