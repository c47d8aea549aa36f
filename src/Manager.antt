-- ===== src/Manager.antt =====
-- kcpmanager.h and kcpmanager.cpp. The manager is a timer manager and a scheduler, with the queue of
-- the objects that wait to be registered or removed and the table of contexts by socket. An object
-- is known by a number, and a socket is not negative. The answers of `epoll_ctl` and `epoll_wait` are
-- arguments. An operation that fails an assertion or leaves the bounds of the table returns `none`.
pub mod Contexts
pub mod Queue
pub mod Registration
pub mod Idle
mod Tests
use fiber_kcp.Prelude.{
  ℕ, zero, suc, ◌+◌, ◌-◌, ◌*◌, ◌/◌, ◌%◌, ◌^◌, bit_and, bit_or, Bool, true, false, not, ◌&&◌, Option,
  none, some, ◌>>=◌, List, [], ◌∷◌, ◌++◌, ltb, leb, ◌==◌, if◌then◌else◌, ℤ, pos, negsuc,
}
use fiber_kcp.Word.{add32, sub32, pattern32}
use fiber_kcp.Timer.{
  KTimer, KTimerManager, cancel, alter, add_timer, del_timer, list_expired_timer, get_near_timeout,
  u64_mod,
}
use fiber_kcp.Scheduler.{Scheduler, Task, schedule, schedule_range}
use fiber_kcp.Scheduler.Loop.{stopping}
use fiber_kcp.Manager.Contexts.{
  Context, Table, Routine, input_of, output_of, find_context, ensure, put_context, bind_read,
  reset_read, trigger_read, trigger_write,
}
use fiber_kcp.Manager.Queue.{
  Entry, KcpState, notinit, inited, remove, Place, find_place, insert_entry, mark_removed,
}

abbrev pub epoll_event_size : ℕ
epoll_event_size = 1024

-- `wakes` counts the writes to the event descriptor for a timer that came to the front; those that
-- the scheduler makes are its `tickles`. `polled` are the sockets that `epoll` watches.
pub record Manager : Type 0 where
  pub timers : KTimerManager Routine
  pub sched : Scheduler Routine
  pub waiting : List Entry
  pub contexts : Table
  pub event_count : ℕ
  pub polled : List ℕ
  pub wakes : ℕ

-- kcpmanager.cpp:247-253.
pub wake : Manager → Manager
wake m = if ltb 0 m.sched.idle then record m { wakes = suc m.wakes } else m

-- kcpmanager.cpp:284-287, if a timer came to the front.
pub announced : Bool → Manager → Manager
announced front m = if front then wake m else m

-- kcpmanager.cpp:76-77.
pub put_entry : Entry → Manager → Option Place → Option (Manager × Bool)
put_entry e m none = none
put_entry e m (some p) =
    let (es, fresh) = insert_entry e p in some (record m { waiting = es }, fresh)

-- kcpmanager.cpp:66-78; a null object is `none`.
unfoldable pub add_kcp : Option Entry → Manager → Option (Manager × Bool)
add_kcp none m = some (m, false)
add_kcp (some e) m =
    if leb epoll_event_size m.event_count
    then some (m, false)
    else put_entry (record e { state = notinit }) m (find_place e.fd m.waiting)

-- kcpmanager.cpp:83-87.
pub mark_entry : Manager → Option Place → Option (Manager × Bool)
mark_entry m none = none
mark_entry m (some p) = some (record m { waiting = mark_removed p }, true)

-- kcpmanager.cpp:80-88, for an object with the socket.
unfoldable pub del_kcp : ℕ → Manager → Option (Manager × Bool)
del_kcp fd m = mark_entry m (find_place fd m.waiting)

-- What the system answers for a socket: whether the timer is allocated, at what time, and whether
-- `epoll` watches the socket.
pub record Answer : Type 0 where
  pub allocated : Bool
  pub now : ℕ
  pub watched : Bool

-- The conversion of an `int32_t` to `uint64_t`.
abbrev pub pattern64 : ℤ → ℕ
pattern64 (pos n) = n % u64_mod
pattern64 (negsuc n) = u64_mod - 1 - n % u64_mod

-- A manager in the middle of a pass, and the events of its thread.
abbrev pub Pass : Type 0
Pass = Manager × ℕ

abbrev pub add16 : ℕ → ℕ → ℕ
add16 a b = (a + b) % 2 ^ 16

-- kcpmanager.cpp:153-161, with the context of the socket and the number of its timer.
pub watch : Bool → ℕ → ℕ → Context → Pass → Pass
watch true fd id c (m, local) = (
  record m {
    contexts = put_context fd c m.contexts;
    event_count = add16 m.event_count 1;
    polled = m.polled ++ (fd ∷ []);
  },
  add32 local 1,
)
watch false fd id c (m, local) = (
  record m {
    contexts = put_context fd (reset_read c) m.contexts;
    timers = record m.timers { timers = alter cancel id m.timers.timers };
  },
  local,
)

-- kcpmanager.cpp:143-161, with what `addTimer` returns.
pub with_timer :
    Answer
    → Entry
    → Context
    → Pass
    → KTimerManager Routine × Option (KTimer Routine) × Bool
    → Option Pass
with_timer a e c p (timers, none, front) = none
with_timer a e c (m, local) (timers, some t, front) = some (
    watch a.watched e.fd t.unique_id (record c { timer_id = t.unique_id })
      (announced front (record m { timers = timers }), local))

-- kcpmanager.cpp:136-161 in the thread `me`.
pub with_context : ℕ → Answer → Entry → Pass → Option Context → Option Pass
with_context me a e p none = none
with_context me a e (m, local) (some c) =
    with_timer a e (bind_read me e.fd e.kcp c) (m, local)
      (add_timer a.allocated m.timers a.now (pattern64 e.interval) (some (output_of e.kcp))
        (pattern32 e.interval) me)

-- kcpmanager.cpp:121-161. The object is bound to the thread, too, but leaves the queue.
pub register : ℕ → Answer → Entry → Pass → Option Pass
register me a e (m, local) =
    let m' = record m { contexts = ensure e.fd m.contexts } in
    with_context me a e (m', local) (find_context e.fd m'.contexts)

-- `EPOLL_CTL_DEL`.
pub without : ℕ → List ℕ → List ℕ
without fd [] = []
without fd (x ∷ xs) = let rest = without fd xs in if x == fd then rest else x ∷ rest

-- kcpmanager.cpp:172-181.
pub unregister : Entry → Pass → Option Pass
unregister e (m, local) = do
  c ← find_context e.fd m.contexts
  some (
    record m {
      contexts = put_context e.fd (reset_read c) m.contexts;
      timers = del_timer m.timers c.timer_id;
      event_count = add16 m.event_count (2 ^ 16 - 1);
      polled = without e.fd m.polled;
    },
    sub32 local 1,
  )
