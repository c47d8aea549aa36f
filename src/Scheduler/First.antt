-- ===== src/Scheduler/First.antt =====
-- The task that a thread takes is the first that can run in it.
use fiber_kcp.Prelude.{
  ℕ, ◌≡◌, refl, ap, inl, inr, Bool, true, false, not, ◌&&◌, ◌||◌, Option, none, some, List, [], ◌∷◌,
  ◌++◌, All, Bool-cases, if◌then◌else◌,
}
use fiber_kcp.Word.{add32}
use fiber_kcp.Fiber.{FiberState}
use fiber_kcp.Scheduler.{
  Task, Scheduler, Search, missing, found, is_task, is_nil, fits, is_running, tickle, pass_over,
  search_queue, took, take_task,
}

module _ {ℓ} {A : Type ℓ} where
  -- The task may run in the thread `me`, and does not run already.
  abbrev pub can_run : (ℕ → FiberState) → ℕ → Task A → Bool
  can_run states me t = fits t.tid me && not (is_running states t)

  -- A task of the list belongs to another thread.
  abbrev pub has_other : ℕ → List (Task A) → Bool
  has_other me [] = false
  has_other me (t ∷ ts) = not (fits t.tid me) || has_other me ts

  abbrev pub IsTask : Task A → Type 0
  IsTask t = is_task t ≡ true

  abbrev pub Waits : (ℕ → FiberState) → ℕ → Task A → Type 0
  Waits states me t = can_run states me t ≡ false

-- What a walk of the queue `ts` by the thread `me` comes to.
pub data Finds {ℓ} {A : Type ℓ} (states : ℕ → FiberState) (me : ℕ) (ts : List (Task A))
    : Search A → Type ℓ where
  none_waits :
      (other : Bool)
      → All (Waits states me) ts
      → other ≡ has_other me ts
      → Finds states me ts (missing other)
  first_waits :
      (t : Task A) (before behind rest : List (Task A)) (other more : Bool)
      → ts ≡ before ++ (t ∷ behind)
      → rest ≡ before ++ behind
      → All (Waits states me) before
      → can_run states me t ≡ true
      → other ≡ has_other me before
      → more ≡ not (is_nil behind)
      → Finds states me ts (found t rest other more)

-- What a thread gets from the queue, and what it leaves.
pub data Takes {ℓ} {A : Type ℓ} (me : ℕ) (s : Scheduler A)
    : Option (Option (Task A) × Scheduler A) → Type ℓ where
  takes_none :
      (s' : Scheduler A)
      → All (Waits s.states me) s.queue
      → s' ≡ (if has_other me s.queue then tickle s else s)
      → Takes me s (some (none, s'))
  takes_first :
      (t : Task A) (before behind : List (Task A)) (s' : Scheduler A)
      → s.queue ≡ before ++ (t ∷ behind)
      → All (Waits s.states me) before
      → can_run s.states me t ≡ true
      → s' ≡ (
          let rest = record s { queue = before ++ behind; active = add32 s.active 1 } in
          if has_other me before || not (is_nil behind) then tickle rest else rest)
      → Takes me s (some (some t, s'))

module _ {ℓ} {A : Type ℓ} where
  pass_over-Finds :
      (states : ℕ → FiberState) (me : ℕ) (t : Task A) (ts : List (Task A)) (other : Bool)
      (s : Search A)
      → Waits states me t
      → other ≡ not (fits t.tid me)
      → Finds states me ts s
      → Finds states me (t ∷ ts) (pass_over t other s)
  unfolding pass_over
  pass_over-Finds states me t ts other _ w e (none_waits o a q) =
      none_waits (other || o) (w, a) (rw (e, q) refl)
  pass_over-Finds states me t ts other _ w e (first_waits u a b rest o more p q x y z m) =
      first_waits u (t ∷ a) b (t ∷ rest) (other || o) more (ap (◌∷◌ t) p) (ap (◌∷◌ t) q) (w, x) y
        (rw (e, z) refl) m

  search_queue-Finds :
      (states : ℕ → FiberState) (me : ℕ) (ts : List (Task A))
      → All IsTask ts
      → Finds states me ts (search_queue states me ts)
  unfolding search_queue
  search_queue-Finds states me [] a = none_waits false tt refl
  search_queue-Finds states me (t ∷ ts) a =
      let h = search_queue-Finds states me ts a.1 in
      elim (Bool-cases (fits t.tid me)) [
        | inr e ↦ rw e (
            pass_over-Finds states me t ts true (search_queue states me ts) (rw e refl) (rw e refl)
              h)
        | inl e ↦ elim (Bool-cases (is_running states t)) [
          | inl x ↦
              rw (e, a.0, x)
                (pass_over-Finds states me t ts false (search_queue states me ts) (rw (e, x) refl)
                  (rw e refl) h)
          | inr x ↦
              rw (e, a.0, x)
                (first_waits t [] ts ts false (not (is_nil ts)) refl refl tt (rw (e, x) refl) refl
                  refl)
        ]
      ]

  took-Takes :
      (me : ℕ) (s : Scheduler A) {r : Search A}
      → Finds s.states me s.queue r
      → Takes me s (took r s)
  unfolding took
  took-Takes me s (none_waits other a e) = takes_none _ a (rw e refl)
  took-Takes me s (first_waits t a b rest other more p q x y z m) =
      takes_first t a b _ p x y (rw (q, z, m) refl)

  -- From a queue of tasks that each have something to run, a thread takes the first that is bound
  -- to no thread or to this one, and whose fiber does not run already; the others stay in their
  -- order and one more thread is active. If there is none, the queue stays. Other threads are
  -- woken exactly if a task of theirs was passed or tasks stand behind the one taken.
  pub take_task-Takes :
      (me : ℕ) (s : Scheduler A) → All IsTask s.queue → Takes me s (take_task me s)
  unfolding take_task
  take_task-Takes me s a = took-Takes me s (search_queue-Finds s.states me s.queue a)
