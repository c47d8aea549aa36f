-- ===== src/Manager/Registration.antt =====
-- What the registration of an object leaves, kcpmanager.cpp:121-161.
use mathlib.Core.List.{Perm}
use fiber_kcp.Prelude.{
  ℕ, ◌-◌, ◌≤◌, ◌<◌, ◌≡◌, ◌≢◌, Bool, true, false, Option, none, some, [], ◌∷◌, ◌++◌, length,
}
use fiber_kcp.Word.{add32, pattern32}
use fiber_kcp.Timer.{u64_mod, add64, KTimer, KTimerManager, new_timer, add_timer}
use fiber_kcp.Timer.Add.{IsTimed}
use fiber_kcp.Manager.{Manager, Answer, Pass, add16, pattern64}
use fiber_kcp.Manager.Contexts.{
  Context, Table, Routine, input_of, output_of, no_event, context_at, ensure, find_context,
}
use fiber_kcp.Manager.Contexts.Resize.{IsFilled}
use fiber_kcp.Manager.Queue.{Entry}

-- The timer that sends what an object has queued.
abbrev pub sender : ℕ → Answer → Entry → Manager → KTimer Routine
sender me a e m =
    new_timer a.now m.timers.id_count (pattern64 e.interval) (some (output_of e.kcp))
      (pattern32 e.interval) me

-- The table has a context for the socket, which stands as `good` says, and the others are as before.
abbrev pub Stands : (Context → Type 0) → Entry → Manager → Manager → Type 0
Stands good e m m' =
    IsFilled m'.contexts
    × ((c : Context) × (find_context e.fd m'.contexts ≡ some c) × good c)
    × ((j : ℕ)
        → j < length m.contexts
        → j ≢ e.fd
        → context_at j m'.contexts ≡ context_at j m.contexts)

abbrev pub Registers : Bool → ℕ → Answer → Entry → Pass → Pass → Type 0
Registers true me a e (m, local) (m', local') =
    Stands
      (λ c.
        (c.read ≡ record { has_scheduler = true; fiber = none; cb = some (input_of e.kcp) })
        × (c.tid ≡ me)
        × (c.timer_id ≡ add64 m.timers.id_count 1))
      e m m'
    × IsTimed m'.timers
    × Perm m'.timers.timers (sender me a e m ∷ m.timers.timers)
    × (m'.event_count ≡ add16 m.event_count 1)
    × (m'.polled ≡ m.polled ++ (e.fd ∷ []))
    × (local' ≡ add32 local 1)
Registers false me a e (m, local) (m', local') =
    Stands (λ c. c.read ≡ no_event) e m m'
    × (m'.event_count ≡ m.event_count)
    × (m'.polled ≡ m.polled)
    × (local' ≡ local)

module _ (me : ℕ) (a : Answer) (e : Entry) (m : Manager) (local : ℕ) (h : 2 ≤ e.fd)
    (f : IsFilled m.contexts) (w : IsTimed m.timers) (hid : m.timers.id_count < u64_mod - 1) where
  cs : Table
  cs = ensure e.fd m.contexts

  added : KTimerManager Routine × Option (KTimer Routine) × Bool
  added =
      add_timer true m.timers a.now (pattern64 e.interval) (some (output_of e.kcp))
        (pattern32 e.interval) me
