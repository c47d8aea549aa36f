-- ===== src/Scheduler/Loop.antt =====
-- kschedule.cpp:17-47, 66-125 and 127-241. The loop of a thread, and how it is started and stopped. What
-- happens while a fiber runs is an argument: the state it is in when it gives way, the tasks that
-- anyone has put into the queue by then, and the number of fibers created.
pub mod Work
pub mod Turns
pub mod Tasks
pub mod Total
mod Tests
use fiber_kcp.Prelude.{
  ℕ, zero, suc, ◌+◌, ◌-◌, Bool, true, false, not, ◌&&◌, ◌||◌, Option, none, some, List, [], ◌∷◌,
  ◌++◌, take, ltb, ◌==◌, if◌then◌else◌, ℤ, pos, negsuc,
}
use fiber_kcp.Word.{add32, sub32}
use fiber_kcp.Timer.{add64}
use fiber_kcp.Fiber.{FiberState, ready, hold, exec, term, except, is_exec, is_over, is_ready, put}
use fiber_kcp.Scheduler.{Task, Scheduler, is_nil, is_some, tickle, schedule, take_task}

-- The locals of `threadloop` and the thread that runs it.
pub record Worker : Type 0 where
  pub thread : ℕ
  pub idle_fiber : ℕ
  pub cb_fiber : Option ℕ

-- What a fiber that was resumed leaves behind when it gives way.
pub record Outcome {ℓ} (A : Type ℓ) : Type ℓ where
  pub state : FiberState
  pub arrived : List (Task A)
  pub created : ℕ

module _ {ℓ} {A : Type ℓ} where
  abbrev pub set_fiber : ℕ → FiberState → Scheduler A → Scheduler A
  set_fiber f x s = record s { states = put s.states f x }

  -- `resume`, with what happens until the fiber gives way.
  pub run_fiber : ℕ → Outcome A → Scheduler A → Scheduler A
  run_fiber f o s = record s {
    states = put s.states f o.state;
    queue = s.queue ++ o.arrived;
    fiber_id = add64 s.fiber_id o.created;
  }

  abbrev pub less_active : Scheduler A → Scheduler A
  less_active s = record s { active = sub32 s.active 1 }

  abbrev pub fiber_task : ℕ → ℤ → Task A
  fiber_task f th = record { fiber = some f; cb = none; tid = th }

  -- kschedule.cpp:175-180.
  pub settle_fiber : FiberState → ℕ → Scheduler A → Scheduler A
  settle_fiber ready f s = schedule (fiber_task f (pos 0)) s
  settle_fiber hold f s = set_fiber f hold s
  settle_fiber exec f s = set_fiber f hold s
  settle_fiber term f s = s
  settle_fiber except f s = s

  -- kschedule.cpp:173-181, for a fiber that has not ended.
  pub run_task : ℕ → Outcome A → Scheduler A → Scheduler A
  run_task f o s = settle_fiber o.state f (less_active (run_fiber f o s))

  -- kschedule.cpp:183-188: the fiber for callbacks, ready. `KFiber::reset` has an assertion.
  pub ready_fiber : Option ℕ → Scheduler A → Option (ℕ × Scheduler A)
  ready_fiber (some g) s =
      if is_over (s.states g) || is_ready (s.states g) then some (g, set_fiber g ready s) else none
  ready_fiber none s =
      let g = add64 s.fiber_id 1 in some (g, set_fiber g ready (record s { fiber_id = g }))

  -- kschedule.cpp:192-201, with the fiber for callbacks that is kept. The assertion of `reset` holds
  -- in the state that the fiber is in.
  pub settle_callback : FiberState → ℕ → Scheduler A → Scheduler A × Option ℕ
  settle_callback ready g s = (schedule (fiber_task g (pos 0)) s, none)
  settle_callback term g s = (set_fiber g ready s, some g)
  settle_callback except g s = (set_fiber g ready s, some g)
  settle_callback hold g s = (set_fiber g hold s, none)
  settle_callback exec g s = (set_fiber g hold s, none)

  -- kschedule.cpp:190-201.
  pub run_callback : Outcome A → Worker → ℕ × Scheduler A → Scheduler A × Worker
  run_callback o w (g, s) =
      let (s', kept) = settle_callback o.state g (less_active (run_fiber g o s)) in
      (s', record w { cb_fiber = kept })

-- A turn of the loop: it fails an assertion, it leaves the loop, or it goes on.
pub data Turn {ℓ} (A : Type ℓ) : Type ℓ where
  asserted : Turn A
  broke : Scheduler A → Turn A
  again : Scheduler A → Worker → Turn A

abbrev pub is_root : ℤ → Bool
is_root (pos n) = true
is_root (negsuc n) = false

abbrev pub here : ℤ → ℕ → Bool
here (pos n) me = n == me
here (negsuc n) me = n == 0

abbrev pub is_term : FiberState → Bool
is_term term = true
is_term _ = false

abbrev pub is_except : FiberState → Bool
is_except except = true
is_except _ = false

module _ {ℓ} {A : Type ℓ} where
  -- kschedule.cpp:187-201, unless the assertion of `reset` fails.
  pub on_ready : Outcome A → Worker → Option (ℕ × Scheduler A) → Turn A
  on_ready o w none = asserted
  on_ready o w (some p) = let (s', w') = run_callback o w p in again s' w'

  -- kschedule.cpp:182-206.
  pub turn_callback : Option A → Outcome A → Worker → Scheduler A → Turn A
  turn_callback none o w s = again (less_active s) w
  turn_callback (some c) o w s = on_ready o w (ready_fiber w.cb_fiber s)

  -- kschedule.cpp:172-206, with a task. The code of a fiber that has ended goes on at kfiber.cpp:222.
  pub turn_task : Option ℕ → Task A → Outcome A → Worker → Scheduler A → Turn A
  turn_task none t o w s = turn_callback t.cb o w s
  turn_task (some f) t o w s =
      if is_exec (s.states f) || is_except (s.states f)
      then turn_callback t.cb o w s
      else if is_term (s.states f)
      then asserted
      else again (run_task f o s) w

  -- kschedule.cpp:216-219.
  pub settle_idle : FiberState → ℕ → Scheduler A → Scheduler A
  settle_idle x f s = if is_over x then s else set_fiber f hold s

  -- kschedule.cpp:208-211 and 222, with the destructor of the fiber for callbacks that is kept,
  -- kfiber.cpp:79-93.
  pub leave_loop : Option ℕ → Scheduler A → Turn A
  leave_loop none s = broke s
  leave_loop (some g) s = if is_over (s.states g) then broke s else asserted

  -- kschedule.cpp:208-219, without one. The code of an idle fiber that threw goes on at kfiber.cpp:222.
  pub turn_idle : Outcome A → Worker → Scheduler A → Turn A
  turn_idle o w s =
      if is_term (s.states w.idle_fiber)
      then leave_loop w.cb_fiber s
      else if is_exec (s.states w.idle_fiber) || is_except (s.states w.idle_fiber)
      then asserted
      else (let s' = run_fiber w.idle_fiber o (record s { idle = add32 s.idle 1 }) in
          again (settle_idle o.state w.idle_fiber (record s' { idle = sub32 s'.idle 1 })) w)

  pub turn_with : Outcome A → Worker → Option (Option (Task A) × Scheduler A) → Turn A
  turn_with o w none = asserted
  turn_with o w (some (none, s)) = turn_idle o w s
  turn_with o w (some (some t, s)) = turn_task t.fiber t o w s

  -- kschedule.cpp:139-220.
  unfoldable pub turn : Outcome A → Worker → Scheduler A → Turn A
  turn o w s = turn_with o w (take_task w.thread s)

  -- kschedule.cpp:237-241.
  unfoldable pub stopping : Scheduler A → Bool
  stopping s = s.stopping_flag && is_nil s.queue && (s.active == 0)

  -- kschedule.cpp:224-230: how the idle fiber gives way, having found the scheduler so.
  pub idle : Scheduler A → FiberState
  idle s = if stopping s then term else hold

  -- kschedule.cpp:17-41, with the thread that calls and the number of fibers made so far, the main
  -- one counted.
  pub new_scheduler : ℕ → Bool → ℕ → ℕ → Option (Scheduler A)
  new_scheduler threads user_caller me fibers =
      let s : Scheduler A = record {
        queue = [];
        threads = if user_caller then me ∷ [] else [];
        thread_count = if user_caller then threads - 1 else threads;
        root_thread = if user_caller then pos me else negsuc 0;
        root_fiber = if user_caller then some (suc fibers) else none;
        stopping_flag = true;
        active = 0;
        idle = 0;
        states = λ _. ready;
        fiber_id = if user_caller then suc fibers else fibers;
        tickles = 0;
      } in
      if threads == 0 then none else some s

  -- kschedule.cpp:66-80; `ids` are the threads that the system makes.
  pub start : List ℕ → Bool → Scheduler A → Option (Scheduler A)
  start ids none_yet s =
      if s.stopping_flag
      then (if none_yet
          then some
              (record s { stopping_flag = false; threads = s.threads ++ take s.thread_count ids })
          else none)
      else some s

  -- kschedule.cpp:84-90.
  pub is_done : Scheduler A → Bool
  is_done s = elim s.root_fiber [
    | none ↦ false
    | some f ↦ (s.thread_count == 0) && is_term (s.states f) && stopping s
  ]

  -- kschedule.cpp:98-105.
  pub halt : Scheduler A → Scheduler A
  halt s = record s {
    stopping_flag = true;
    tickles = s.tickles + s.thread_count + (if is_some s.root_fiber then 1 else 0);
  }

  -- kschedule.cpp:82-111: `own` tells whether the calling thread is one of this scheduler, the result
  -- whether the root fiber is called to work off what is left.
  pub stop : Bool → Scheduler A → Option (Scheduler A × Bool)
  stop own s =
      let s' = halt s in
      if is_done s
      then some (s, false)
      else if (if is_root s.root_thread then own else not own)
      then some (s', is_some s.root_fiber && not (stopping s'))
      else none

  -- kschedule.cpp:114-125, by the fiber `f` of the thread `me`; the result tells whether it yields.
  pub switch_to : Bool → ℤ → ℕ → ℕ → Scheduler A → Scheduler A × Bool
  switch_to own th me f s =
      if own && here th me then (s, false) else (schedule (fiber_task f th) s, true)
