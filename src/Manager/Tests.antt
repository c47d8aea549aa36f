-- ===== src/Manager/Tests.antt =====
-- Runs of the manager, and the theorems about it at a concrete state.
use fiber_kcp.Prelude.{pos, ◌≡◌, refl, true, false, none, some, List, [], ◌∷◌, negsuc}
use fiber_kcp.Fiber.{ready}
use fiber_kcp.Manager.{Manager, Answer, add_kcp, del_kcp}
use fiber_kcp.Manager.Contexts.{
  Context, Table, Routine, input_of, no_event, new_context, ensure, find_context,
}
use fiber_kcp.Manager.Queue.{Entry, notinit}
use fiber_kcp.Manager.Idle.{EpollEvent, dispatch}
use fiber_kcp.Manager.Idle.Dispatch.{Queues, task_of, dispatch_reads}

abbrev object : Entry
object = record { kcp = 40; fd = 5; interval = pos 100; bind_tid = 0; state = notinit }

abbrev idle_manager : Manager
idle_manager = record {
  timers = record { timers = []; tickle = false; id_count = 0 };
  sched = record {
    queue = [];
    threads = 1 ∷ [];
    thread_count = 1;
    root_thread = negsuc 0;
    root_fiber = none;
    stopping_flag = false;
    active = 0;
    idle = 1;
    states = λ _. ready;
    fiber_id = 3;
    tickles = 0;
  };
  waiting = object ∷ [];
  contexts = [];
  event_count = 0;
  polled = [];
  wakes = 0;
}

abbrev agrees : Answer
agrees = record { allocated = true; now = 7; watched = true }

-- The context of the socket 1, read by the object 40.
abbrev reading : Context
reading = record {
  read = record { has_scheduler = true; fiber = none; cb = some (input_of 40) };
  write = no_event;
  timer_id = 1;
  tid = 1;
  fd = 1;
  events = 1;
}

abbrev table : Table
table = none ∷ some reading ∷ []

-- An event of the event descriptor, and one that only tells that the socket can be written.
abbrev two_events : List EpollEvent
two_events = record { mask = 1; target = none } ∷ record { mask = 4; target = some 1 } ∷ []

dispatch_reads_example :
    Queues idle_manager.sched
      (task_of (input_of 40) 1 ∷ [])
      (dispatch table two_events idle_manager.sched)
unfolding find_context fiber_kcp.Manager.Contexts.context_at
dispatch_reads_example =
    dispatch_reads table two_events (task_of (input_of 40) 1 ∷ []) idle_manager.sched
      (reading, input_of 40, [], refl, (refl, refl), refl, refl)

-- With an empty table the socket 1 gets no context: its place lies behind the end.
no_context : find_context 1 (ensure 1 []) ≡ none
unfolding find_context ensure fiber_kcp.Manager.Contexts.context_resize
    fiber_kcp.Manager.Contexts.fill_table fiber_kcp.Manager.Contexts.context_at
no_context = refl

removal_fails : del_kcp 5 idle_manager ≡ none
unfolding del_kcp fiber_kcp.Manager.mark_entry fiber_kcp.Manager.Queue.find_place
    fiber_kcp.Manager.Queue.pass_entry fiber_kcp.Manager.Queue.compare_fd
removal_fails = refl
