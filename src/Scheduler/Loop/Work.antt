-- ===== src/Scheduler/Loop/Work.antt =====
-- What holds between two turns of the loop, and what a turn may come to.
use fiber_kcp.Prelude.{
  ℕ, suc, ◌≤◌, ◌<◌, ◌≡◌, ◌≢◌, refl, sym, ◌∙◌, ap, subst, ◌⊎◌, inl, inr, ◌&&◌, Option, none, some,
  some-injective, List, [], ◌∷◌, ◌++◌, All, All-append, arith, Bool-cases, ◌==◌, ltb, pos,
}
use fiber_kcp.Word.{u32_mod}
use fiber_kcp.Fiber.{FiberState, ready, hold, exec, term, except, put}
use fiber_kcp.Fiber.Alone.{put_same, put_other}
use fiber_kcp.Scheduler.{Task, Scheduler, is_nil, schedule_no_lock, tickle_if, schedule, take_task}
use fiber_kcp.Scheduler.First.{IsTask}
use fiber_kcp.Scheduler.Loop.{
  Worker, Turn, asserted, broke, again, set_fiber, fiber_task, settle_fiber,
}

-- The fiber that runs callbacks: the one that is kept, or the next one that is made.
abbrev pub callback_fiber : Option ℕ → ℕ → ℕ
callback_fiber (some g) last = g
callback_fiber none last = suc last

pub own_other :
    (cb : Option ℕ) (f last last' : ℕ)
    → f ≤ last
    → last ≤ last'
    → f ≢ callback_fiber cb last
    → f ≢ callback_fiber cb last'
own_other (some g) f last last' h h' n = n
own_other none f last last' h h' n = λ q. omega (arith, q)

module _ {ℓ} {A : Type ℓ} where
  -- The task has something to run, and its fiber is one of those made so far but not `own`.
  abbrev pub IsFree : ℕ → ℕ → Task A → Type 0
  IsFree last own t = IsTask t × ((f : ℕ) → t.fiber ≡ some f → (f ≤ last) × (f ≢ own))

  abbrev pub AreFree : ℕ → ℕ → List (Task A) → Type 0
  AreFree last own ts = All (IsFree last own) ts

  -- A scheduler and a worker between two turns.
  pub record IsWorking (queue : List (Task A)) (states : ℕ → FiberState) (last : ℕ) (w : Worker)
      : Type 0 where
    pub tasks : AreFree last (callback_fiber w.cb_fiber last) queue
    pub kept : (g : ℕ) → w.cb_fiber ≡ some g → (states g ≡ ready) × (g ≤ last)
    pub idle_other : w.idle_fiber ≢ callback_fiber w.cb_fiber last
    pub idle_id : w.idle_fiber ≤ last
    pub idle_rests : states w.idle_fiber ≢ exec

  abbrev pub Works : Scheduler A → Worker → Type 0
  Works s w = IsWorking s.queue s.states s.fiber_id w × (s.active < u32_mod) × (s.idle < u32_mod)

  -- A turn keeps this, and leaves the counts of active and of idle threads as they were. It ends the
  -- loop only with the queue as it was. An assertion fails only if the task that is taken names a
  -- fiber that has ended, or if there is none to take and the idle fiber has ended, by an exception
  -- or while a fiber for callbacks is kept.
  pub data Turned (s : Scheduler A) (w : Worker) : Turn A → Type ℓ where
    went_on :
        (s' : Scheduler A) (w' : Worker)
        → Works s' w'
        → s'.active ≡ s.active
        → s'.idle ≡ s.idle
        → Turned s w (again s' w')
    left_loop :
        (s' : Scheduler A)
        → w.cb_fiber ≡ none
        → s.states w.idle_fiber ≡ term
        → s'.queue ≡ s.queue
        → s'.active ≡ s.active
        → Turned s w (broke s')
    task_over :
        (t : Task A) (s' : Scheduler A) (f : ℕ)
        → take_task w.thread s ≡ some (some t, s')
        → t.fiber ≡ some f
        → s.states f ≡ term
        → Turned s w asserted
    idle_threw :
        (s' : Scheduler A)
        → take_task w.thread s ≡ some (none, s')
        → s.states w.idle_fiber ≡ except
        → Turned s w asserted
    kept_at_end :
        (s' : Scheduler A) (g : ℕ)
        → take_task w.thread s ≡ some (none, s')
        → s.states w.idle_fiber ≡ term
        → w.cb_fiber ≡ some g
        → Turned s w asserted

  pub AreFree-mono :
      (last last' own : ℕ) (ts : List (Task A))
      → last ≤ last'
      → AreFree last own ts
      → AreFree last' own ts
  AreFree-mono last last' own [] h a = tt
  AreFree-mono last last' own (t ∷ ts) h a = (
    (a.0.0, λ f e. (omega (arith, (a.0.1 f e).0), (a.0.1 f e).1)),
    AreFree-mono last last' own ts h a.1,
  )

  -- No task has a fiber that is not made yet.
  pub AreFree-next :
      (last own : ℕ) (ts : List (Task A)) → AreFree last own ts → AreFree last (suc last) ts
  AreFree-next last own [] a = tt
  AreFree-next last own (t ∷ ts) a = (
    (a.0.0, λ f e. ((a.0.1 f e).0, λ q. omega (arith, (a.0.1 f e).0, q))),
    AreFree-next last own ts a.1,
  )

  pub requeued-IsFree :
      (last own f : ℕ) (t : Task A)
      → t ≡ fiber_task f (pos 0)
      → f ≤ last
      → f ≢ own
      → IsFree last own t
  requeued-IsFree last own f t e h n = subst (IsFree last own) (sym e) (
    refl,
    λ g q. (subst (λ x. x ≤ last) (some-injective f g q) h, λ x. n (some-injective f g q ∙ x)),
  )

  grown :
      (cb : Option ℕ) (last last' : ℕ) (ts : List (Task A))
      → last ≤ last'
      → AreFree last (callback_fiber cb last) ts
      → AreFree last' (callback_fiber cb last') ts
  grown (some g) last last' ts h a = AreFree-mono last last' g ts h a
  grown none last last' ts h a =
      AreFree-next last' (suc last) ts (AreFree-mono last last' (suc last) ts h a)

  come :
      (cb : Option ℕ) (last last' : ℕ) (ts : List (Task A))
      → AreFree last' (callback_fiber cb last) ts
      → AreFree last' (callback_fiber cb last') ts
  come (some g) last last' ts a = a
  come none last last' ts a = AreFree-next last' (suc last) ts a

  pub schedule_lem :
      (t : Task A) (s : Scheduler A)
      → IsTask t
      → (n : ℕ) × (schedule t s ≡ record s { queue = s.queue ++ (t ∷ []); tickles = n })
  unfolding schedule schedule_no_lock tickle_if
  schedule_lem t s h = rw h (elim (Bool-cases (is_nil s.queue && ltb 0 s.thread_count)) [
    | inl e ↦ (suc s.tickles, rw e refl)
    | inr e ↦ (s.tickles, rw e refl)
  ])

  -- A fiber `f` that is not the worker's own has run.
  pub ran-IsWorking :
      (queue arrived : List (Task A)) (states states' : ℕ → FiberState) (last last' f : ℕ)
      (w : Worker)
      → IsWorking queue states last w
      → AreFree last' (callback_fiber w.cb_fiber last) arrived
      → last ≤ last'
      → f ≢ callback_fiber w.cb_fiber last
      → ((g : ℕ) → g ≢ f → states' g ≡ states g)
      → states' f ≢ exec
      → IsWorking (queue ++ arrived) states' last' w
  ran-IsWorking queue arrived states states' last last' f w v a h n same x = record {
    tasks =
        All-append (IsFree last' (callback_fiber w.cb_fiber last')) queue arrived
          (grown w.cb_fiber last last' queue h v.tasks) (come w.cb_fiber last last' arrived a);
    kept = λ g e. (
      same g (λ q. n (sym q ∙ ap (λ c. callback_fiber c last) (sym e))) ∙ (v.kept g e).0,
      omega (arith, (v.kept g e).1),
    );
    idle_other = own_other w.cb_fiber w.idle_fiber last last' v.idle_id h v.idle_other;
    idle_id = omega (arith, v.idle_id);
    idle_rests = elim (Bool-cases (w.idle_fiber == f)) [
      | inl e ↦ subst (λ g. states' g ≢ exec) (ground (arith, e)) x
      | inr e ↦ λ q. v.idle_rests (sym (same w.idle_fiber (ground (arith, e))) ∙ q)
    ];
  }

  pub added-IsWorking :
      (queue : List (Task A)) (states : ℕ → FiberState) (last : ℕ) (w : Worker) (t : Task A)
      → IsWorking queue states last w
      → IsFree last (callback_fiber w.cb_fiber last) t
      → IsWorking (queue ++ (t ∷ [])) states last w
  added-IsWorking queue states last w t v f = record {
    tasks =
        All-append (IsFree last (callback_fiber w.cb_fiber last)) queue (t ∷ []) v.tasks (f, tt);
    kept = v.kept;
    idle_other = v.idle_other;
    idle_id = v.idle_id;
    idle_rests = v.idle_rests;
  }

  -- `f` is put back if it is ready, and else left on hold unless it has ended.
  abbrev pub Settled : FiberState → ℕ → Scheduler A → Scheduler A → Type ℓ
  Settled x f s s' =
      (n : ℕ) × (queue : List (Task A)) × (states : ℕ → FiberState) × (s'
        ≡ record s { queue = queue; states = states; tickles = n })
      × ((queue ≡ s.queue) ⊎ (queue ≡ s.queue ++ (fiber_task f (pos 0) ∷ [])))
      × ((g : ℕ) → g ≢ f → states g ≡ s.states g)
      × (states f ≢ exec)

  held-Settled : (x : FiberState) (f : ℕ) (s : Scheduler A) → Settled x f s (set_fiber f hold s)
  held-Settled x f s = (
    s.tickles,
    s.queue,
    put s.states f hold,
    refl,
    inl refl,
    (λ g n. put_other s.states f hold g n),
    λ e. ground (arith, sym (put_same s.states f hold) ∙ e),
  )

  requeued-Settled :
      (x : FiberState) (f : ℕ) (s : Scheduler A)
      → s.states f ≢ exec
      → Settled x f s (schedule (fiber_task f (pos 0)) s)
  requeued-Settled x f s n =
      let (k, e) = schedule_lem (fiber_task f (pos 0)) s refl in
      (k, s.queue ++ (fiber_task f (pos 0) ∷ []), s.states, e, inr refl, (λ g q. refl), n)

  pub settle_fiber-Settled :
      (x : FiberState) (f : ℕ) (s : Scheduler A)
      → s.states f ≡ x
      → Settled x f s (settle_fiber x f s)
  unfolding settle_fiber
  settle_fiber-Settled ready f s e = requeued-Settled ready f s (λ q. ground (arith, sym e ∙ q))
  settle_fiber-Settled hold f s e = held-Settled hold f s
  settle_fiber-Settled exec f s e = held-Settled exec f s
  settle_fiber-Settled term f s e =
      (s.tickles, s.queue, s.states, refl, inl refl, (λ g n. refl), λ q. ground (arith, sym e ∙ q))
  settle_fiber-Settled except f s e =
      (s.tickles, s.queue, s.states, refl, inl refl, (λ g n. refl), λ q. ground (arith, sym e ∙ q))
