-- ===== src/Manager/Idle/Dispatch.antt =====
-- What the events of the sockets put into the queue of tasks.
use Prim.Native.Nat.{bit_or, digits, bit_or-bitwise, max}
use fiber_kcp.Prelude.{
  ℕ, zero, suc, ◌/◌, ◌≤◌, ◌≡◌, refl, sym, ◌∙◌, ap, true, false, Option, none, some, ◌>>=◌, List, [],
  ◌∷◌, ◌++◌, append-nil, append_assoc, arith, ◌==◌, pos,
}
use fiber_kcp.Scheduler.{Scheduler, Task, schedule}
use fiber_kcp.Scheduler.Loop.Work.{schedule_lem}
use fiber_kcp.Manager.Contexts.{
  Context, Table, Routine, no_event, find_context, trigger, trigger_read, trigger_write,
}
use fiber_kcp.Manager.Idle.{
  EpollEvent, epoll_in, epoll_out, widened, trigger_both, dispatch_one, dispatch,
}

abbrev or_digits : ℕ → ℕ → ℕ → ℕ
or_digits n a b = digits (λ b. b) max n a b

or_one : (n a : ℕ) → 1 ≤ or_digits n a 1
or_one zero a = omega arith
or_one (suc n) zero = omega arith
or_one (suc n) (suc a) = omega arith

or_two : (n a : ℕ) → 1 ≤ or_digits n a 2
or_two zero a = omega arith
or_two (suc n) zero = omega arith
or_two (suc n) (suc a) = omega (arith, or_one n (suc a / 2))

or_four : (n a : ℕ) → 1 ≤ or_digits n a 4
or_four zero a = omega arith
or_four (suc n) zero = omega arith
or_four (suc n) (suc a) = omega (arith, or_two n (suc a / 2))

-- The union of any mask with a bit is not zero.
in_set : (mask : ℕ) → (bit_or mask epoll_in == 0) ≡ false
in_set mask = ground (arith, bit_or-bitwise mask 1, or_one mask mask)

out_set : (mask : ℕ) → (bit_or mask epoll_out == 0) ≡ false
out_set mask = ground (arith, bit_or-bitwise mask 4, or_four mask mask)

-- A context whose socket is read by the routine `f`, and not written.
abbrev pub ReadsBy : Context → Routine → Type 0
ReadsBy c f =
    (c.read ≡ record { has_scheduler = true; fiber = none; cb = some f }) × (c.write ≡ no_event)

abbrev pub task_of : Routine → ℕ → Task Routine
task_of f th = record { fiber = none; cb = some f; tid = pos th }

-- What one event adds in front of the tasks that `P` is about.
abbrev pub Asked : Table → Option ℕ → (List (Task Routine) → Type 0) → List (Task Routine) → Type 0
Asked cs none P ts = P ts
Asked cs (some fd) P ts =
    (c : Context) × (f : Routine) × (rest : List (Task Routine)) × (find_context fd cs ≡ some c)
    × ReadsBy c f
    × (ts ≡ task_of f c.tid ∷ rest)
    × P rest

-- The tasks that the events ask for: for each event of a socket, whatever its mask, the routine that
-- reads the socket, in the thread of its context.
abbrev pub Asks : Table → List EpollEvent → List (Task Routine) → Type 0
Asks cs [] ts = ts ≡ []
Asks cs (ev ∷ evs) ts = Asked cs ev.target (λ rest. Asks cs evs rest) ts

trigger_both-reads :
    (mask : ℕ) (c : Context) (f : Routine) (s : Scheduler Routine)
    → ReadsBy c f
    → trigger_both mask c s ≡ some (schedule (task_of f c.tid) s)
unfolding trigger_both trigger_read trigger_write trigger
trigger_both-reads mask c f s (r, w) =
    let s' = schedule (task_of f c.tid) s in
    rw (in_set mask, out_set mask)
      (ap (λ (x : Option (Scheduler Routine)). x >>= λ y. trigger c.write c.tid y)
          (ap (λ e. trigger e c.tid s) r)
        ∙ ap (λ e. trigger e c.tid s') w)

dispatch_one-reads :
    (cs : Table) (mask fd : ℕ) (c : Context) (f : Routine) (s : Scheduler Routine)
    → find_context fd cs ≡ some c
    → ReadsBy c f
    → dispatch_one cs mask (some fd) s ≡ some (schedule (task_of f c.tid) s)
unfolding dispatch_one
dispatch_one-reads cs mask fd c f s e r =
    ap (λ (x : Option Context). x >>= λ y. trigger_both (widened mask y.events) y s) e
    ∙ trigger_both-reads (widened mask c.events) c f s r

-- The tasks are queued.
abbrev pub Queues : Scheduler Routine → List (Task Routine) → Option (Scheduler Routine) → Type 0
Queues s ts r = (s' : Scheduler Routine) × (r ≡ some s') × (s'.queue ≡ s.queue ++ ts)

one_event :
    (cs : Table) (mask : ℕ) (target : Option ℕ) (P : List (Task Routine) → Type 0)
    (go : Scheduler Routine → Option (Scheduler Routine)) (ts : List (Task Routine))
    (s : Scheduler Routine)
    → ((s' : Scheduler Routine) (rest : List (Task Routine)) → P rest → Queues s' rest (go s'))
    → Asked cs target P ts
    → Queues s ts (dispatch_one cs mask target s >>= go)
unfolding dispatch_one
one_event cs mask none P go ts s k a = k s ts a
one_event cs mask (some fd) P go ts s k (c, f, rest, e, r, q, a) =
    let t = task_of f c.tid in
    let (n, x) = schedule_lem t s refl in
    let (s', y, z) = k (schedule t s) rest a in
    (
      s',
      ap (λ (o : Option (Scheduler Routine)). o >>= go) (dispatch_one-reads cs mask fd c f s e r)
          ∙ y,
      z
          ∙ ap (λ (u : Scheduler Routine). u.queue ++ rest) x
          ∙ append_assoc s.queue (t ∷ []) rest
          ∙ ap (λ l. s.queue ++ l) (sym q),
    )

-- Events on sockets that are registered for reading: the queue grows at its end by one run of the
-- reading routine for each event of a socket, in their order and whatever their masks say, even
-- for an event that tells nothing to read; an event of the event descriptor adds nothing.
pub dispatch_reads :
    (cs : Table) (evs : List EpollEvent) (ts : List (Task Routine)) (s : Scheduler Routine)
    → Asks cs evs ts
    → Queues s ts (dispatch cs evs s)
unfolding dispatch
dispatch_reads cs [] ts s a = (s, refl, sym (ap (λ t. s.queue ++ t) a ∙ append-nil s.queue))
dispatch_reads cs (ev ∷ evs) ts s a =
    one_event cs ev.mask ev.target (λ rest. Asks cs evs rest) (λ s'. dispatch cs evs s') ts s
      (λ s' rest b. dispatch_reads cs evs rest s' b) a
