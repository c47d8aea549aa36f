-- ===== src/Scheduler/Loop/Total.antt =====
-- A turn of the loop as a whole, kschedule.cpp:139-220.
use fiber_kcp.Prelude.{
  ℕ, suc, ap, ◌⊎◌, inl, inr, none, some, ◌≡◌, ◌≢◌, refl, sym, ◌∙◌, subst, Bool, true, false, not,
  ◌||◌, Option, List, [], ◌∷◌, ◌++◌, All, All-append, All-left, All-right, arith, if◌then◌else◌,
  if_cases,
}
use fiber_kcp.Word.{add32, sub32}
use fiber_kcp.Timer.{add64}
use fiber_kcp.Fiber.{FiberState, hold, exec, term, is_exec, is_over, put}
use fiber_kcp.Fiber.Alone.{put_same, put_other}
use fiber_kcp.Scheduler.{Task, Scheduler, is_nil, tickle}
use fiber_kcp.Scheduler.First.{IsTask, has_other, Takes, takes_none, takes_first, take_task-Takes}
use fiber_kcp.Scheduler.{take_task}
use fiber_kcp.Scheduler.Loop.{
  Worker, Outcome, asserted, again, is_term, is_except, leave_loop, set_fiber, run_fiber, turn_task,
  settle_idle, turn_idle, turn_with, turn,
}
use fiber_kcp.Scheduler.Loop.Work.{
  callback_fiber, IsFree, AreFree, IsWorking, Works, Turned, went_on, left_loop, idle_threw,
  kept_at_end, ran-IsWorking,
}
use fiber_kcp.Scheduler.Loop.Turns.{Arrives, add64_small, one_less}
use fiber_kcp.Scheduler.Loop.Tasks.{
  is_exec-exec, is_term-term, is_except-except, is_over-rests, hold≢exec, turn_task-Turned,
}

or_cases : (a b : Bool) → (a || b) ≡ true → (a ≡ true) ⊎ (b ≡ true)
or_cases true b e = inl refl
or_cases false b e = inr e

module _ {ℓ} {A : Type ℓ} where
  -- The idle fiber has run.
  idle-Turned :
      (o : Outcome A) (w : Worker) (s : Scheduler A) (states : ℕ → FiberState) (n : ℕ)
      → Works s w
      → Arrives s w o
      → ((g : ℕ) → g ≢ w.idle_fiber → states g ≡ s.states g)
      → states w.idle_fiber ≢ exec
      → Turned s w (
          again
            (record s {
              queue = s.queue ++ o.arrived;
              states = states;
              fiber_id = add64 s.fiber_id o.created;
              idle = sub32 (add32 s.idle 1) 1;
              tickles = n;
            })
            w)
  idle-Turned o w s states n (v, b, c) a same x =
      let l = add64_small s.fiber_id o.created (omega (arith, a.1)) in
      let p = one_less s.idle c in
      went_on _ w
        (
          ran-IsWorking s.queue o.arrived s.states states s.fiber_id _ w.idle_fiber w v (rw l a.0)
              (omega (arith, l)) v.idle_other same x,
          b,
          omega (arith, p),
        )
        refl p

  -- The loop is left, where the fiber for callbacks is the one that `cb` gives.
  leave_loop-Turned :
      (cb : Option ℕ) (w : Worker) (s : Scheduler A) (n : ℕ)
      → w.cb_fiber ≡ cb
      → take_task w.thread s ≡ some (none, record s { tickles = n })
      → Works s w
      → s.states w.idle_fiber ≡ term
      → Turned s w (leave_loop cb (record s { tickles = n }))
  unfolding leave_loop
  leave_loop-Turned none w s n e p v x = left_loop _ e x refl refl
  leave_loop-Turned (some g) w s n e p v x = rw (v.0.kept g e).0 (kept_at_end _ g p x e)

  turn_idle-Turned :
      (o : Outcome A) (w : Worker) (s : Scheduler A) (n : ℕ)
      → take_task w.thread s ≡ some (none, record s { tickles = n })
      → Works s w
      → Arrives s w o
      → Turned s w (turn_idle o w (record s { tickles = n }))
  unfolding turn_idle settle_idle run_fiber
  turn_idle-Turned o w s n p v a =
      let f = w.idle_fiber in
      let s₁ = record s { tickles = n } in
      let s₂ = run_fiber f o (record s₁ { idle = add32 s.idle 1 }) in
      let s₃ = record s₂ { idle = sub32 (add32 s.idle 1) 1 } in
      if_cases (Turned s w) (is_term (s.states f)) (leave_loop w.cb_fiber s₁)
        (if is_exec (s.states f) || is_except (s.states f)
          then asserted
          else again (settle_idle o.state f s₃) w)
        (λ e. leave_loop-Turned w.cb_fiber w s n refl p v (is_term-term (s.states f) e))
        (λ _.
          if_cases (Turned s w) (is_exec (s.states f) || is_except (s.states f)) asserted
            (again (settle_idle o.state f s₃) w)
            (λ e. elim (or_cases (is_exec (s.states f)) (is_except (s.states f)) e) [
              | inl x ↦ absurd (v.0.idle_rests (is_exec-exec (s.states f) x))
              | inr x ↦ idle_threw s₁ p (is_except-except (s.states f) x)
            ])
            (λ _.
              if_cases (λ (x : Scheduler A). Turned s w (again x w)) (is_over o.state) s₃
                (set_fiber f hold s₃)
                (λ e.
                  idle-Turned o w s (put s.states f o.state) n v a
                    (λ g m. put_other s.states f o.state g m)
                    (λ q. is_over-rests o.state e (sym (put_same s.states f o.state) ∙ q)))
                (λ e.
                  idle-Turned o w s (put (put s.states f o.state) f hold) n v a
                    (λ g m.
                      put_other (put s.states f o.state) f hold g m
                      ∙ put_other s.states f o.state g m)
                    (λ q. hold≢exec (sym (put_same (put s.states f o.state) f hold) ∙ q)))))

  AreFree-IsTask : (last own : ℕ) (ts : List (Task A)) → AreFree last own ts → All IsTask ts
  AreFree-IsTask last own [] a = tt
  AreFree-IsTask last own (t ∷ ts) a = (a.0.0, AreFree-IsTask last own ts a.1)

  tickled :
      (b : Bool) (s : Scheduler A)
      → (n : ℕ) × ((if b then tickle s else s) ≡ record s { tickles = n })
  tickled true s = (suc s.tickles, refl)
  tickled false s = (s.tickles, refl)

  -- The others, when one task is taken out.
  others-IsWorking :
      (before behind : List (Task A)) (t : Task A) (states : ℕ → FiberState) (last : ℕ) (w : Worker)
      → IsWorking (before ++ (t ∷ behind)) states last w
      → IsWorking (before ++ behind) states last w × IsFree last (callback_fiber w.cb_fiber last) t
  others-IsWorking before behind t states last w v =
      let P = IsFree last (callback_fiber w.cb_fiber last) in
      let b = All-right P before (t ∷ behind) v.tasks in
      (
        record {
          tasks = All-append P before behind (All-left P before (t ∷ behind) v.tasks) b.1;
          kept = v.kept;
          idle_other = v.idle_other;
          idle_id = v.idle_id;
          idle_rests = v.idle_rests;
        },
        b.0,
      )

  turn_with-Turned :
      (o : Outcome A) (w : Worker) (s : Scheduler A) {r : Option (Option (Task A) × Scheduler A)}
      → take_task w.thread s ≡ r
      → Works s w
      → Arrives s w o
      → Takes w.thread s r
      → Turned s w (turn_with o w r)
  unfolding turn_with
  turn_with-Turned o w s h v a (takes_none s' x e) =
      let (n, q) = tickled (has_other w.thread s.queue) s in
      subst (λ s'. Turned s w (turn_idle o w s')) (sym (e ∙ q))
        (turn_idle-Turned o w s n (h ∙ ap (λ y. some (none, y)) (e ∙ q)) v a)
  turn_with-Turned o w s h v a (takes_first t before behind s' p x y e) =
      let rest = before ++ behind in
      let (n, q) =
        tickled (has_other w.thread before || not (is_nil behind))
          (record s { queue = rest; active = add32 s.active 1 }) in
      let (v', i) =
        others-IsWorking before behind t s.states s.fiber_id w
          (subst (λ ts. IsWorking ts s.states s.fiber_id w) p v.0) in
      subst (λ s'. Turned s w (turn_task t.fiber t o w s')) (sym (e ∙ q))
        (turn_task-Turned t.fiber t o w s rest n s' h refl i v v' a)

  -- Whatever fiber a turn of the loop runs and however it gives way, what holds between two turns
  -- holds again: each task has something to run, the fiber that is kept for callbacks is ready and
  -- no task names it, and as many threads count as active and as idle as before. An assertion
  -- fails only if the task that is taken names a fiber that has ended, or if no task can be taken
  -- and the idle fiber has ended, by an exception or while a fiber for callbacks is kept; the loop
  -- is left only when the idle fiber has ended and none is kept. The tasks that arrive meanwhile
  -- have something to run and name fibers that were made and are not the one for callbacks.
  pub turn-Turned :
      (o : Outcome A) (w : Worker) (s : Scheduler A)
      → Works s w
      → Arrives s w o
      → Turned s w (turn o w s)
  unfolding turn
  turn-Turned o w s v a = turn_with-Turned o w s refl v a (
      take_task-Takes w.thread s
        (AreFree-IsTask s.fiber_id (callback_fiber w.cb_fiber s.fiber_id) s.queue v.0.tasks))
