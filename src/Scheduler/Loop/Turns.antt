-- ===== src/Scheduler/Loop/Turns.antt =====
-- Every turn of the loop, case by case.
use fiber_kcp.Prelude.{
  ℕ, suc, ◌+◌, ◌≤◌, ◌<◌, ◌≡◌, ◌≢◌, refl, sym, ◌∙◌, ap, subst, inl, inr, none, some, some-injective,
  List, ◌++◌, arith, pos,
}
use fiber_kcp.Word.{u32_mod, add32, sub32}
use fiber_kcp.Timer.{u64_mod, add64}
use fiber_kcp.Fiber.{FiberState, ready, hold, exec, term, except, put}
use fiber_kcp.Fiber.Alone.{put_same, put_other}
use fiber_kcp.Scheduler.{Task, Scheduler}
use fiber_kcp.Scheduler.Loop.{
  Worker, Outcome, again, run_fiber, less_active, fiber_task, run_task, settle_callback,
  run_callback,
}
use fiber_kcp.Scheduler.Loop.Work.{
  callback_fiber, AreFree, IsWorking, Works, Turned, went_on, AreFree-next, requeued-IsFree,
  own_other, schedule_lem, ran-IsWorking, added-IsWorking, Settled, settle_fiber-Settled,
}

pub add64_small : (a b : ℕ) → a + b < u64_mod → add64 a b ≡ a + b
unfolding add64
add64_small a b h = omega arith

pub one_less : (a : ℕ) → a < u32_mod → sub32 (add32 a 1) 1 ≡ a
one_less a h = omega arith

abbrev pub sent_back : Worker → Worker
sent_back w = record w { cb_fiber = none }

module _ {ℓ} {A : Type ℓ} where
  -- What arrives in the queue while a fiber runs can run, and names neither the worker's own fiber
  -- nor one that is not made yet.
  abbrev pub Arrives : Scheduler A → Worker → Outcome A → Type 0
  Arrives s w o =
      AreFree (s.fiber_id + o.created) (callback_fiber w.cb_fiber s.fiber_id) o.arrived
      × (suc (s.fiber_id + o.created) < u64_mod)

  Settled-IsWorking :
      (o : Outcome A) (f : ℕ) (w : Worker) (s s' : Scheduler A)
      → IsWorking s.queue s.states s.fiber_id w
      → Arrives s w o
      → f ≤ s.fiber_id
      → f ≢ callback_fiber w.cb_fiber s.fiber_id
      → Settled o.state f (less_active (run_fiber f o s)) s'
      → IsWorking s'.queue s'.states s'.fiber_id w
        × (s'.active ≡ sub32 s.active 1)
        × (s'.idle ≡ s.idle)
  unfolding run_fiber
  Settled-IsWorking o f w s s' v a h n (k, queue, states, e, q, same, x) =
      let last' = add64 s.fiber_id o.created in
      let l = add64_small s.fiber_id o.created (omega (arith, a.1)) in
      let t : Task A = fiber_task f (pos 0) in
      let ran =
        ran-IsWorking s.queue o.arrived s.states states s.fiber_id last' f w v (rw l a.0)
          (omega (arith, l)) n (λ g m. same g m ∙ put_other s.states f o.state g m) x in
      subst
        (λ (s' : Scheduler A).
          IsWorking s'.queue s'.states s'.fiber_id w
          × (s'.active ≡ sub32 s.active 1)
          × (s'.idle ≡ s.idle))
        (sym e)
        (elim q [
          | inl y ↦ (subst (λ z. IsWorking z states last' w) (sym y) ran, refl, refl)
          | inr y ↦ (
            subst (λ z. IsWorking z states last' w) (sym y)
                (added-IsWorking (s.queue ++ o.arrived) states last' w t ran (
                  requeued-IsFree last' (callback_fiber w.cb_fiber last') f t refl
                    (omega (arith, l))
                    (own_other w.cb_fiber f s.fiber_id last' h (omega (arith, l)) n))),
            refl,
            refl,
          )
        ])

  -- The scheduler `s` when a thread has taken a task.
  abbrev pub taken_off : Scheduler A → List (Task A) → ℕ → Scheduler A
  taken_off s rest n = record s { queue = rest; active = add32 s.active 1; tickles = n }

  pub run_task-Turned :
      (o : Outcome A) (f : ℕ) (w : Worker) (s : Scheduler A) (rest : List (Task A)) (n : ℕ)
      → Works s w
      → IsWorking rest s.states s.fiber_id w
      → Arrives s w o
      → f ≤ s.fiber_id
      → f ≢ callback_fiber w.cb_fiber s.fiber_id
      → Turned s w (again (run_task f o (taken_off s rest n)) w)
  unfolding run_task run_fiber
  run_task-Turned o f w s rest n (v, b, c) v' a h m =
      let s₁ = taken_off s rest n in
      let (v'', p, q) = Settled-IsWorking o f w s₁ (run_task f o s₁) v' a h m (
        settle_fiber-Settled o.state f (less_active (run_fiber f o s₁))
          (put_same s.states f o.state)) in
      let p' = p ∙ one_less s.active b in
      went_on (run_task f o s₁) w (v'', omega (arith, p'), omega (arith, q)) p' q

  -- The fiber for callbacks has been given up.
  given_up :
      (queue : List (Task A)) (states : ℕ → FiberState) (last g : ℕ) (w : Worker)
      → AreFree last g queue
      → w.idle_fiber ≤ last
      → states w.idle_fiber ≢ exec
      → IsWorking queue states last (sent_back w)
  given_up queue states last g w a h x = record {
    tasks = AreFree-next last g queue a;
    kept = λ g e. absurd (ground (arith, e));
    idle_other = λ e. omega (arith, e);
    idle_id = h;
    idle_rests = x;
  }

  -- It is kept, ready.
  kept_on :
      (queue : List (Task A)) (states : ℕ → FiberState) (last g : ℕ) (w : Worker)
      → AreFree last g queue
      → states g ≡ ready
      → g ≤ last
      → w.idle_fiber ≢ g
      → w.idle_fiber ≤ last
      → states w.idle_fiber ≢ exec
      → IsWorking queue states last (record w { cb_fiber = some g })
  kept_on queue states last g w a r l n h x = record {
    tasks = a;
    kept = λ g' e.
        let q = some-injective g g' e in (subst (λ g'. states g' ≡ ready) q r, omega (arith, q));
    idle_other = n;
    idle_id = h;
    idle_rests = x;
  }

  -- The fiber for callbacks `g` has run, and is put back, kept or left on hold.
  called :
      (x : FiberState) (g : ℕ) (w : Worker) (s : Scheduler A)
      → AreFree s.fiber_id g s.queue
      → s.states g ≡ x
      → g ≤ s.fiber_id
      → w.idle_fiber ≢ g
      → w.idle_fiber ≤ s.fiber_id
      → s.states w.idle_fiber ≢ exec
      → let (s', kept) = settle_callback x g s in
        IsWorking s'.queue s'.states s'.fiber_id (record w { cb_fiber = kept })
        × (s'.active ≡ s.active)
        × (s'.idle ≡ s.idle)
  unfolding settle_callback
  called ready g w s a e l n h r =
      let t : Task A = fiber_task g (pos 0) in
      let (k, q) = schedule_lem t s refl in
      let v = given_up s.queue s.states s.fiber_id g w a h r in
      let v' =
        added-IsWorking s.queue s.states s.fiber_id (sent_back w) t v
          (requeued-IsFree s.fiber_id (suc s.fiber_id) g t refl l (λ y. omega (arith, y))) in
      subst
        (λ (s' : Scheduler A).
          IsWorking s'.queue s'.states s'.fiber_id (sent_back w)
          × (s'.active ≡ s.active)
          × (s'.idle ≡ s.idle))
        (sym q) (v', refl, refl)
  called hold g w s a e l n h r = (
    given_up s.queue (put s.states g hold) s.fiber_id g w a h
        (rw (put_other s.states g hold w.idle_fiber n) r),
    refl,
    refl,
  )
  called exec g w s a e l n h r = (
    given_up s.queue (put s.states g hold) s.fiber_id g w a h
        (rw (put_other s.states g hold w.idle_fiber n) r),
    refl,
    refl,
  )
  called term g w s a e l n h r = (
    kept_on s.queue (put s.states g ready) s.fiber_id g w a (put_same s.states g ready) l n h
        (rw (put_other s.states g ready w.idle_fiber n) r),
    refl,
    refl,
  )
  called except g w s a e l n h r = (
    kept_on s.queue (put s.states g ready) s.fiber_id g w a (put_same s.states g ready) l n h
        (rw (put_other s.states g ready w.idle_fiber n) r),
    refl,
    refl,
  )

  -- A callback runs in the fiber `g`, the scheduler being `s₁`.
  pub run_callback-Turned :
      (o : Outcome A) (w : Worker) (s s₁ : Scheduler A) (g : ℕ)
      → s.active < u32_mod
      → s.idle < u32_mod
      → s₁.active ≡ add32 s.active 1
      → s₁.idle ≡ s.idle
      → s₁.fiber_id + o.created < u64_mod
      → AreFree (s₁.fiber_id + o.created) g (s₁.queue ++ o.arrived)
      → g ≤ s₁.fiber_id
      → w.idle_fiber ≢ g
      → w.idle_fiber ≤ s₁.fiber_id
      → s₁.states w.idle_fiber ≢ exec
      → Turned s w (let (s', w') = run_callback o w (g, s₁) in again s' w')
  unfolding run_callback run_fiber
  run_callback-Turned o w s s₁ g b c p q u a l n h r =
      let s₂ = less_active (run_fiber g o s₁) in
      let e = add64_small s₁.fiber_id o.created u in
      let (v, p', q') =
        called o.state g w s₂ (rw e a) (put_same s₁.states g o.state) (omega (arith, e)) n
          (omega (arith, e)) (rw (put_other s₁.states g o.state w.idle_fiber n) r) in
      let p'' = p' ∙ ap (λ x. sub32 x 1) p ∙ one_less s.active b in
      let q'' = q' ∙ q in went_on _ _ (v, omega (arith, p''), omega (arith, q'')) p'' q''
