-- ===== src/Scheduler/Loop/Tasks.antt =====
-- A turn of the loop that has taken a task, kschedule.cpp:172-206.
use fiber_kcp.Prelude.{
  ℕ, suc, ◌+◌, ◌≡◌, ◌≢◌, refl, sym, ◌∙◌, ap, subst, true, ◌||◌, Option, none, some, List,
  All-append, arith, if_cases, if◌then◌else◌,
}
use fiber_kcp.Timer.{add64}
use fiber_kcp.Fiber.{FiberState, ready, hold, exec, term, except, is_exec, is_over, put}
use fiber_kcp.Fiber.Alone.{put_other}
use fiber_kcp.Scheduler.{Task, Scheduler, take_task}
use fiber_kcp.Scheduler.Loop.{
  Worker, Outcome, asserted, again, is_term, is_except, set_fiber, run_task, ready_fiber, on_ready,
  turn_callback, turn_task,
}
use fiber_kcp.Scheduler.Loop.Work.{
  callback_fiber, IsFree, AreFree, IsWorking, Works, Turned, went_on, task_over, AreFree-mono,
}
use fiber_kcp.Scheduler.Loop.Turns.{
  Arrives, taken_off, add64_small, one_less, run_task-Turned, run_callback-Turned,
}

next : (a : ℕ) {b : ℕ} → b ≡ a + 1 → suc a ≡ b
next a e = omega (arith, e)

pub is_exec-exec : (x : FiberState) → is_exec x ≡ true → x ≡ exec
is_exec-exec exec e = refl
is_exec-exec ready e = absurd (ground arith)
is_exec-exec hold e = absurd (ground arith)
is_exec-exec term e = absurd (ground arith)
is_exec-exec except e = absurd (ground arith)

pub is_term-term : (x : FiberState) → is_term x ≡ true → x ≡ term
is_term-term term e = refl
is_term-term ready e = absurd (ground arith)
is_term-term hold e = absurd (ground arith)
is_term-term exec e = absurd (ground arith)
is_term-term except e = absurd (ground arith)

pub is_except-except : (x : FiberState) → is_except x ≡ true → x ≡ except
is_except-except except e = refl
is_except-except ready e = absurd (ground arith)
is_except-except hold e = absurd (ground arith)
is_except-except exec e = absurd (ground arith)
is_except-except term e = absurd (ground arith)

pub is_over-rests : (x : FiberState) → is_over x ≡ true → x ≢ exec
is_over-rests x e q = ground (arith, sym (ap is_over q) ∙ e)

pub hold≢exec : hold ≢ exec
hold≢exec e = cc

module _ {ℓ} {A : Type ℓ} where
  ready_fiber-kept :
      (g : ℕ) (s : Scheduler A)
      → s.states g ≡ ready
      → ready_fiber (some g) s ≡ some (g, set_fiber g ready s)
  unfolding ready_fiber
  ready_fiber-kept g s e = rw e refl

  -- The worker's own fiber is the one that `cb` gives.
  on_ready-Turned :
      (cb : Option ℕ) (o : Outcome A) (w : Worker) (s : Scheduler A) (rest : List (Task A)) (n : ℕ)
      → w.cb_fiber ≡ cb
      → Works s w
      → IsWorking rest s.states s.fiber_id w
      → Arrives s w o
      → Turned s w (on_ready o w (ready_fiber cb (taken_off s rest n)))
  unfolding on_ready ready_fiber
  on_ready-Turned (some g) o w s rest n e (v, b, c) v' a =
      let s₁ = taken_off s rest n in
      let last' = s.fiber_id + o.created in
      let own = ap (λ cb. callback_fiber cb s.fiber_id) e in
      let free =
        All-append (IsFree last' g) rest o.arrived
          (AreFree-mono s.fiber_id last' g rest (omega arith)
            (subst (λ x. AreFree s.fiber_id x rest) own v'.tasks))
          (subst (λ x. AreFree last' x o.arrived) own a.0) in
      subst (λ r. Turned s w (on_ready o w r)) (sym (ready_fiber-kept g s₁ (v.kept g e).0))
        (run_callback-Turned o w s (set_fiber g ready s₁) g b c refl refl (omega (arith, a.1)) free
          (v.kept g e).1 (subst (λ x. w.idle_fiber ≢ x) own v.idle_other) v.idle_id
          (rw
            (put_other s.states g ready w.idle_fiber
              (subst (λ x. w.idle_fiber ≢ x) own v.idle_other))
            v.idle_rests))
  on_ready-Turned none o w s rest n e (v, b, c) v' a =
      let g = add64 s.fiber_id 1 in
      let q = add64_small s.fiber_id 1 (omega (arith, a.1)) in
      let s₁ = record (taken_off s rest n) { fiber_id = g; states = put s.states g ready } in
      let last' = g + o.created in
      let own : callback_fiber w.cb_fiber s.fiber_id ≡ g =
        ap (λ cb. callback_fiber cb s.fiber_id) e ∙ next s.fiber_id q in
      let free =
        All-append (IsFree last' g) rest o.arrived
          (AreFree-mono s.fiber_id last' g rest (omega (arith, q))
            (subst (λ x. AreFree s.fiber_id x rest) own v'.tasks))
          (AreFree-mono (s.fiber_id + o.created) last' g o.arrived (omega (arith, q))
            (subst (λ x. AreFree (s.fiber_id + o.created) x o.arrived) own a.0)) in
      (run_callback-Turned o w s s₁ g b c refl refl (omega (arith, a.1, q)) free (omega arith)
        (subst (λ x. w.idle_fiber ≢ x) own v.idle_other) (omega (arith, v.idle_id, q))
        (rw
          (put_other s.states g ready w.idle_fiber (subst (λ x. w.idle_fiber ≢ x) own v.idle_other))
          v.idle_rests))

  turn_callback-Turned :
      (c : Option A) (o : Outcome A) (w : Worker) (s : Scheduler A) (rest : List (Task A)) (n : ℕ)
      → Works s w
      → IsWorking rest s.states s.fiber_id w
      → Arrives s w o
      → Turned s w (turn_callback c o w (taken_off s rest n))
  unfolding turn_callback
  turn_callback-Turned none o w s rest n (v, b, c) v' a =
      let p = one_less s.active b in went_on _ w (v', omega (arith, p), c) p refl
  turn_callback-Turned (some f) o w s rest n v v' a =
      on_ready-Turned w.cb_fiber o w s rest n refl v v' a

  pub turn_task-Turned :
      (f : Option ℕ) (t : Task A) (o : Outcome A) (w : Worker) (s : Scheduler A)
      (rest : List (Task A)) (n : ℕ) (s' : Scheduler A)
      → take_task w.thread s ≡ some (some t, s')
      → t.fiber ≡ f
      → IsFree s.fiber_id (callback_fiber w.cb_fiber s.fiber_id) t
      → Works s w
      → IsWorking rest s.states s.fiber_id w
      → Arrives s w o
      → Turned s w (turn_task f t o w (taken_off s rest n))
  unfolding turn_task
  turn_task-Turned none t o w s rest n s' p e i v v' a =
      turn_callback-Turned t.cb o w s rest n v v' a
  turn_task-Turned (some f) t o w s rest n s' p e i v v' a =
      let (h, m) = i.1 f e in
      if_cases (Turned s w) (is_exec (s.states f) || is_except (s.states f))
        (turn_callback t.cb o w (taken_off s rest n))
        (if is_term (s.states f) then asserted else again (run_task f o (taken_off s rest n)) w)
        (λ _. turn_callback-Turned t.cb o w s rest n v v' a)
        (λ _.
          if_cases (Turned s w) (is_term (s.states f)) asserted
            (again (run_task f o (taken_off s rest n)) w)
            (λ x. task_over t s' f p e (is_term-term (s.states f) x))
            (λ _. run_task-Turned o f w s rest n v v' a h m))
