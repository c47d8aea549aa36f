-- ===== src/Manager/Idle.antt =====
-- kcpmanager.cpp:95-259. A turn of `idle` in a thread: the pass over the waiting objects, the test for
-- the end, and what the timers and the sockets ask for.
pub mod Dispatch
pub mod Removal
pub mod Reachable
use Prim.Native.Nat.{bit_and, bit_or}
use fiber_kcp.Prelude.{
  ℕ, zero, suc, ◌+◌, ◌/◌, ◌-◌, Bool, true, false, not, ◌&&◌, Option, none, some, ◌>>=◌, List, [],
  ◌∷◌, ltb, leb, ◌==◌, if◌then◌else◌,
}
use fiber_kcp.Timer.{u64_mod, KTimerManager, list_expired_timer, get_near_timeout}
use fiber_kcp.Scheduler.{Scheduler, schedule_range}
use fiber_kcp.Scheduler.Loop.{stopping}
use fiber_kcp.Manager.{Manager, epoll_event_size, Answer, Pass, register, unregister}
use fiber_kcp.Manager.Contexts.{Context, Table, Routine, find_context, trigger_read, trigger_write}
use fiber_kcp.Manager.Queue.{Entry, KcpState, notinit, inited, remove}

-- kcpmanager.cpp:97, for `count` threads.
pub max_events : ℕ → ℕ
max_events count = epoll_event_size / (if count == 0 then 1 else count) + 1

-- A step of the pass: whether the object stays, and the manager.
abbrev pub Visited : Type 0
Visited = Bool × Pass

pub leaves : Option Pass → Option Visited
leaves p = do x ← p; some (false, x)

pub keep_if : Bool → Entry → List Entry → List Entry
keep_if true e es = e ∷ es
keep_if false e es = es

module _ (me : ℕ) (answer : ℕ → Answer) where
  -- kcpmanager.cpp:115-192.
  pub visit : Entry → KcpState → Pass → Option Visited
  visit e notinit (m, local) =
      if leb epoll_event_size m.event_count
      then some (true, (m, local))
      else leaves (register me (answer e.fd) e (m, local))
  visit e inited p = some (true, p)
  visit e remove p = if e.bind_tid == me then leaves (unregister e p) else some (false, p)

  -- kcpmanager.cpp:114-192.
  pub visit_all : List Entry → Pass → Option (List Entry × Pass)
  visit_all [] p = some ([], p)
  visit_all (e ∷ es) p = do
    (stays, p') ← visit e e.state p
    (es', p'') ← visit_all es p'
    some (keep_if stays e es', p'')

  -- kcpmanager.cpp:113-193.
  pub pass : ℕ → Pass → Option Pass
  pass most (m, local) =
      if ltb local most
      then (do
        (es, (m', local')) ← visit_all m.waiting (m, local)
        some (record m' { waiting = es }, local'))
      else some (m, local)

-- An event: its mask, and the socket of the context that it points to; `none` is the event descriptor.
pub record EpollEvent : Type 0 where
  pub mask : ℕ
  pub target : Option ℕ

-- EPOLLIN, EPOLLOUT, EPOLLERR and EPOLLHUP.
abbrev pub epoll_in : ℕ
epoll_in = 1

abbrev pub epoll_out : ℕ
epoll_out = 4

abbrev pub epoll_err : ℕ
epoll_err = 8

abbrev pub epoll_hup : ℕ
epoll_hup = 16

-- kcpmanager.cpp:231-233.
pub widened : ℕ → ℕ → ℕ
widened mask events =
    if bit_and mask (bit_or epoll_err epoll_hup) == 0
    then mask
    else bit_or mask (bit_and (bit_or epoll_in epoll_out) events)

-- kcpmanager.cpp:235-240; the tests are on the union with the bit.
pub trigger_both : ℕ → Context → Scheduler Routine → Option (Scheduler Routine)
trigger_both mask c s = do
  s' ← if bit_or mask epoll_in == 0 then some s else trigger_read c s
  if bit_or mask epoll_out == 0 then some s' else trigger_write c s'

-- kcpmanager.cpp:221-240.
pub dispatch_one : Table → ℕ → Option ℕ → Scheduler Routine → Option (Scheduler Routine)
dispatch_one cs mask none s = some s
dispatch_one cs mask (some fd) s = do
  c ← find_context fd cs
  trigger_both (widened mask c.events) c s

-- kcpmanager.cpp:220-241, with the assertion on the pointer.
pub dispatch : Table → List EpollEvent → Scheduler Routine → Option (Scheduler Routine)
dispatch cs [] s = some s
dispatch cs (ev ∷ evs) s = do s' ← dispatch_one cs ev.mask ev.target s; dispatch cs evs s'

-- kcpmanager.cpp:255-259: the timeout, and whether the thread is to end.
pub stopping_after : ℕ → Manager → Manager × ℕ × Bool
stopping_after now m =
    let (timers, timeout) = get_near_timeout m.timers now in
    (record m { timers = timers }, timeout, (timeout == u64_mod - 1) && stopping m.sched)

-- How a turn ends: the thread leaves the loop, or yields and goes on.
pub data Idled : Type 0 where
  ends : Manager → Idled
  yields : Manager → ℕ → Idled

-- kcpmanager.cpp:216-241 at the time `now`.
pub serve : ℕ → List EpollEvent → Manager → Option Manager
serve now events m = do
  let (timers, cbs) = list_expired_timer m.timers now []
  s ← dispatch m.contexts events (schedule_range cbs m.sched)
  some (record m { timers = timers; sched = s })

-- kcpmanager.cpp:210-244; `events` is `none` if `epoll_wait` fails, and what it
-- returns at last if signals interrupt it.
pub after_wait : ℕ → Option (List EpollEvent) → Pass → Option Idled
after_wait now none (m, local) = some (ends m)
after_wait now (some events) (m, local) = do m' ← serve now events m; some (yields m' local)

-- kcpmanager.cpp:196-244.
pub after_pass : ℕ → ℕ → Option (List EpollEvent) → Pass → Option Idled
after_pass asked now events (m, local) =
    let (m', timeout, done) = stopping_after asked m in
    if done then some (ends m') else after_wait now events (m', local)

-- kcpmanager.cpp:108-244: a turn in the thread `me`, which asks for the time at `asked` and wakes at
-- `now`.
pub idle_turn : ℕ → (ℕ → Answer) → ℕ → ℕ → Option (List EpollEvent) → Pass → Option Idled
idle_turn me answer asked now events (m, local) = do
  p ← pass me answer (max_events m.sched.thread_count) (m, local)
  after_pass asked now events p
