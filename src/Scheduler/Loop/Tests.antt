-- ===== src/Scheduler/Loop/Tests.antt =====
-- Runs of the loop, and the theorems about it at a concrete queue.
use fiber_kcp.Prelude.{
  ℕ, ◌≤◌, ◌≡◌, ◌≢◌, refl, false, none, some, some-injective, List, [], ◌∷◌, arith, ℤ, pos, negsuc,
}
use fiber_kcp.Fiber.{ready, term}
use fiber_kcp.Scheduler.{Task, Scheduler, take_task, schedule_range, tickle}
use fiber_kcp.Scheduler.First.{Takes, take_task-Takes}
use fiber_kcp.Scheduler.Loop.{Worker, Outcome, asserted, turn, fiber_task}
use fiber_kcp.Scheduler.Loop.Work.{AreFree, Works, Turned}
use fiber_kcp.Scheduler.Loop.Total.{turn-Turned}

abbrev callback : ℕ → ℤ → Task ℕ
callback c th = record { fiber = none; cb = some c; tid = th }

-- A callback of the thread 5, the fiber 2 and a callback of the thread 1.
abbrev waiting : List (Task ℕ)
waiting = callback 9 (pos 5) ∷ fiber_task 2 (pos 0) ∷ callback 8 (pos 1) ∷ []

abbrev full : Scheduler ℕ
full = record {
  queue = waiting;
  threads = 1 ∷ 5 ∷ [];
  thread_count = 2;
  root_thread = negsuc 0;
  root_fiber = none;
  stopping_flag = false;
  active = 0;
  idle = 0;
  states = λ _. ready;
  fiber_id = 3;
  tickles = 0;
}

abbrev worker : Worker
worker = record { thread = 1; idle_fiber = 1; cb_fiber = some 3 }

-- The fiber gives way ready, and a callback has arrived.
abbrev gives_way : Outcome ℕ
gives_way = record { state = ready; arrived = callback 7 (pos 0) ∷ []; created = 1 }

take_task-Takes_example : Takes 1 full (take_task 1 full)
take_task-Takes_example = take_task-Takes 1 full (refl, (refl, (refl, tt)))

no_fiber : (last f : ℕ) → none ≡ some f → (f ≤ last) × (f ≢ 3)
no_fiber last f e = absurd (ground arith)

waiting-AreFree : AreFree 3 3 waiting
waiting-AreFree = (
  (refl, no_fiber 3),
  (
    (
      refl,
      λ f e. (omega (arith, some-injective 2 f e), λ q. omega (arith, some-injective 2 f e, q)),
    ),
    ((refl, no_fiber 3), tt),
  ),
)

full-Works : Works full worker
full-Works = (
  record {
    tasks = waiting-AreFree;
    kept = λ g e. (refl, omega (arith, some-injective 3 g e));
    idle_other = λ e. omega (arith, e);
    idle_id = omega arith;
    idle_rests = λ e. cc;
  },
  omega arith,
  omega arith,
)

turn-Turned_example : Turned full worker (turn gives_way worker full)
turn-Turned_example =
    turn-Turned gives_way worker full full-Works (((refl, no_fiber 4), tt), omega arith)

-- Two callbacks for an empty queue wake the threads once.
range_run : (schedule_range ((1, 7) ∷ (2, 7) ∷ []) (record full { queue = [] })).tickles ≡ 1
unfolding schedule_range fiber_kcp.Scheduler.schedule_each fiber_kcp.Scheduler.schedule_no_lock
    fiber_kcp.Scheduler.tickle_if
range_run = refl

-- A task bound to the thread -1 is none that any thread takes.
stranded :
    (me : ℕ)
    → take_task me (record full { queue = fiber_task 2 (negsuc 0) ∷ [] })
      ≡ some (none, tickle (record full { queue = fiber_task 2 (negsuc 0) ∷ [] }))
unfolding take_task fiber_kcp.Scheduler.took fiber_kcp.Scheduler.search_queue
    fiber_kcp.Scheduler.pass_over fiber_kcp.Scheduler.fits
stranded me = refl

-- A fiber that has ended and waits in the queue is resumed, and fails an assertion.
ended_task :
    turn gives_way worker (record full { queue = fiber_task 2 (pos 0) ∷ []; states = λ _. term })
    ≡ asserted
unfolding turn fiber_kcp.Scheduler.Loop.turn_with fiber_kcp.Scheduler.Loop.turn_task take_task
    fiber_kcp.Scheduler.took fiber_kcp.Scheduler.search_queue fiber_kcp.Scheduler.fits
    fiber_kcp.Scheduler.is_running
ended_task = refl
