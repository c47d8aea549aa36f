-- ===== src/Manager/Contexts.antt =====
-- kcpmanager.h:50-69, kcpmanager.cpp:128-142 and 261-329. The contexts of the sockets and their table.
pub mod Resize
use fiber_kcp.Prelude.{
  ℕ, zero, suc, ◌+◌, ◌-◌, ◌*◌, ◌/◌, Bool, true, false, Option, none, some, ◌>>=◌, List, [], ◌∷◌,
  ◌++◌, length, take, ltb, leb, ◌==◌, if◌then◌else◌, ℤ, pos,
}
use fiber_kcp.Scheduler.{Scheduler, Task, schedule}

-- What a callback of the manager runs, on which object.
pub data Routine : Type 0 where
  input_of : ℕ → Routine
  output_of : ℕ → Routine

-- `has_scheduler` tells whether the pointer is set; there is one scheduler.
pub record EventContext : Type 0 where
  pub has_scheduler : Bool
  pub fiber : Option ℕ
  pub cb : Option Routine

pub record Context : Type 0 where
  pub read : EventContext
  pub write : EventContext
  pub timer_id : ℕ
  pub tid : ℕ
  pub fd : ℕ
  pub events : ℕ

abbrev pub event_read : ℕ
event_read = 1

-- kcpmanager.cpp:306-308 and 311-313, and how a context starts.
abbrev pub no_event : EventContext
no_event = record { has_scheduler = false; fiber = none; cb = none }

-- The fields that the constructor leaves open are zero.
pub new_context : ℕ → Context
new_context fd = record {
  read = no_event;
  write = no_event;
  timer_id = 0;
  tid = 0;
  fd = fd;
  events = 0;
}

-- The vector of pointers; `none` is a null pointer.
abbrev pub Table : Type 0
Table = List (Option Context)

-- kcpmanager.cpp:275-281, from the count `i` on.
unfoldable pub fill_table : ℕ → Table → Table
fill_table i [] = []
fill_table i (none ∷ cs) = some (new_context i) ∷ fill_table (suc i) cs
fill_table i (some c ∷ cs) = some c ∷ fill_table i cs

abbrev pub nulls : ℕ → Table
nulls zero = []
nulls (suc n) = none ∷ nulls n

-- kcpmanager.cpp:261-282.
unfoldable pub context_resize : ℕ → Table → Table
context_resize size cs =
    if size == length cs then cs else fill_table 0 (take size cs ++ nulls (size - length cs))

-- `mContextVec[fd]`: the outer `none` is an index out of bounds.
unfoldable pub context_at : ℕ → Table → Option (Option Context)
context_at fd [] = none
context_at zero (c ∷ cs) = some c
context_at (suc fd) (c ∷ cs) = context_at fd cs

-- kcpmanager.cpp:130-132; the size is `fd * 1.5`, cut to an integer.
unfoldable pub ensure : ℕ → Table → Table
ensure fd cs = if leb (length cs) fd then context_resize (3 * fd / 2) cs else cs

-- kcpmanager.cpp:133-136, with the assertion.
unfoldable pub find_context : ℕ → Table → Option Context
find_context fd cs = do c ← context_at fd cs; c

pub put_context : ℕ → Context → Table → Table
put_context fd c [] = []
put_context zero c (c' ∷ cs) = some c ∷ cs
put_context (suc fd) c (c' ∷ cs) = c' ∷ put_context fd c cs

-- kcpmanager.cpp:137-142, for the object `kcp`.
unfoldable pub bind_read : ℕ → ℕ → ℕ → Context → Context
bind_read me fd kcp c = record c {
  events = event_read;
  fd = fd;
  tid = me;
  read = record { has_scheduler = true; fiber = none; cb = some (input_of kcp) };
}

-- kcpmanager.cpp:302-319.
unfoldable pub reset_read : Context → Context
reset_read c = record c { read = no_event }

pub reset_write : Context → Context
reset_write c = record c { write = no_event }

-- kcpmanager.cpp:324-328; a null scheduler would be used.
unfoldable pub trigger : EventContext → ℕ → Scheduler Routine → Option (Scheduler Routine)
trigger e tid s = elim e.cb [
  | some f ↦
      if e.has_scheduler
      then some (schedule (record { fiber = none; cb = some f; tid = pos tid }) s)
      else none
  | none ↦ elim e.fiber [
    | none ↦ some s
    | some f ↦
        if e.has_scheduler
        then some (schedule (record { fiber = some f; cb = none; tid = pos tid }) s)
        else none
  ]
]

-- kcpmanager.cpp:289-300 and 321-329, for either event.
unfoldable pub trigger_read : Context → Scheduler Routine → Option (Scheduler Routine)
trigger_read c s = trigger c.read c.tid s

unfoldable pub trigger_write : Context → Scheduler Routine → Option (Scheduler Routine)
trigger_write c s = trigger c.write c.tid s
