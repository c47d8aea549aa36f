-- ===== src/Fiber/Tests.antt =====
-- Runs of fibers, and the theorems about them at a concrete thread.
use fiber_kcp.Prelude.{
  ℕ, ◌≡◌, ◌≢◌, ◌⊎◌, inl, refl, true, false, none, some, arith, ◌==◌, if◌then◌else◌,
}
use fiber_kcp.Fiber.{
  FiberState, ready, hold, exec, term, except, KFiber, Machine, get_this, new_fiber, reset_fiber,
  delete_fiber, set_state, get_state, resume, yeild2hold,
}
use fiber_kcp.Fiber.Alone.{IsAlone, entered, left}
use fiber_kcp.Fiber.Reachable.{
  FiberReach, creates, resumes, holds, at_start, goes_on, FiberReach-IsAlone,
}
use fiber_kcp.Fiber.Steps.{BackBreaks}
use fiber_kcp.Fiber.Switch.{Returns, yeild2hold-resume, nested_resume}

abbrev blank : Machine ℕ
blank = record {
  fiber = λ _. record { state = term; stack_size = 0; has_stack = false; cb = none };
  context = λ f. f;
  current = none;
  main = none;
  running = 0;
  fiber_id = 0;
  fiber_count = 0;
}

-- A thread with its main fiber 1, and one with the fibers 2 and 3 besides.
abbrev one : Machine ℕ
one = record blank {
  fiber = λ f. record {
    state = if f == 1 then exec else term;
    stack_size = 0;
    has_stack = false;
    cb = none;
  };
  current = some 1;
  main = some 1;
  running = 1;
  fiber_id = 1;
  fiber_count = 1;
}

-- The same when the fiber 2 runs.
abbrev busy : Machine ℕ
busy = record one {
  fiber = λ f. record {
    state = if f == 1 then exec else if f == 2 then exec else ready;
    stack_size = 0;
    has_stack = true;
    cb = none;
  };
  current = some 2;
  running = 2;
  fiber_id = 3;
}

one-IsAlone : IsAlone 1 one
one-IsAlone = record {
  main_is = refl;
  current_is = refl;
  contexts = λ f. refl;
  runs = refl;
  main_runs = refl;
  alone = λ f e. ground arith;
  main_id = omega arith;
  running_id = omega arith;
}

busy-IsAlone : IsAlone 1 busy
busy-IsAlone = record {
  main_is = refl;
  current_is = refl;
  contexts = λ f. refl;
  runs = refl;
  main_runs = refl;
  alone = λ f e. ground arith;
  main_id = omega arith;
  running_id = omega arith;
}

-- The main fiber makes the fiber 2 and resumes it, which gives way again on hold.
abbrev with_two : Machine ℕ
with_two = new_fiber (some 5) 0 one

abbrev two_runs : Machine ℕ
two_runs = entered 1 2 with_two

two_resumed : resume 2 with_two ≡ some two_runs
unfolding resume fiber_kcp.Fiber.swap_in fiber_kcp.Fiber.enter fiber_kcp.Fiber.set_this set_state
    new_fiber fiber_kcp.Timer.add64
two_resumed = refl

two_held : yeild2hold two_runs ≡ some (left 1 hold 2 two_runs)
unfolding yeild2hold fiber_kcp.Fiber.yeild_to fiber_kcp.Fiber.swap_out fiber_kcp.Fiber.leave
    fiber_kcp.Fiber.set_this set_state fiber_kcp.Fiber.swap_context new_fiber fiber_kcp.Timer.add64
two_held = refl

two-FiberReach : FiberReach 1 one two_runs
unfolding new_fiber fiber_kcp.Timer.add64
two-FiberReach =
    goes_on with_two two_runs (goes_on one with_two at_start (creates one (some 5) 0 (omega arith)))
      (resumes with_two two_runs 2 refl (omega arith) (inl refl) two_resumed)

two_runs_now : two_runs.running ≢ 1
unfolding set_state fiber_kcp.Fiber.set_this fiber_kcp.Fiber.swap_context new_fiber
    fiber_kcp.Timer.add64
two_runs_now e = ground (arith, e)

FiberReach-IsAlone_example :
    IsAlone 1 (left 1 hold 2 two_runs)
    × (((left 1 hold 2 two_runs).running ≡ 1) ⊎ BackBreaks 1 (left 1 hold 2 two_runs))
FiberReach-IsAlone_example = FiberReach-IsAlone 1 one-IsAlone (
    goes_on two_runs (left 1 hold 2 two_runs) two-FiberReach
      (holds two_runs (left 1 hold 2 two_runs) two_runs_now two_held))

yeild2hold-resume_example : (m : Machine ℕ) × Returns 1 3 1 one m
yeild2hold-resume_example = yeild2hold-resume 1 3 one one-IsAlone refl (λ e. cc)

nested_resume_example : (m : Machine ℕ) × Returns 1 3 2 busy m × ((g : ℕ) → m.context g ≢ 1)
nested_resume_example = nested_resume 1 3 busy busy-IsAlone (λ e. omega (arith, e)) (λ e. cc)

first_run : (get_this false blank).main ≡ some 1
unfolding get_this fiber_kcp.Fiber.first_fiber fiber_kcp.Timer.add64
first_run = refl

-- A fiber that has ended and is given no new callback is ready, and cannot be deleted.
delete_ready :
    (m : Machine ℕ)
    → (m.fiber 7).has_stack ≡ true
    → (m.fiber 7).state ≡ ready
    → delete_fiber 7 m ≡ none
unfolding delete_fiber
delete_ready m e h = rw (e, h) refl
