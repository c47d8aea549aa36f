-- ===== src/Fiber/Alone.antt =====
-- One fiber at a time runs, and it is the one that `gCurrentFiber` names.
use fiber_kcp.Prelude.{
  ℕ, ◌≤◌, ◌≡◌, ◌≢◌, refl, sym, ◌∙◌, ap, ◌⊎◌, inl, inr, false, some, arith, ◌==◌, if◌then◌else◌,
  Bool-cases,
}
use fiber_kcp.Fiber.{
  FiberState, ready, hold, exec, term, except, is_exec, KFiber, Machine, put, set_this, set_state,
  swap_context, enter, leave, swap_in, swap_out, resume, yeild_to,
}

-- Of a thread whose main fiber is `r`.
pub record IsAlone {ℓ} {A : Type ℓ} (r : ℕ) (m : Machine A) : Type ℓ where
  pub main_is : m.main ≡ some r
  pub current_is : m.current ≡ some m.running
  pub contexts : (f : ℕ) → m.context f ≡ f
  pub runs : (m.fiber m.running).state ≡ exec
  pub main_runs : (m.fiber r).state ≡ exec
  pub alone : (f : ℕ) → (m.fiber f).state ≡ exec → (f ≡ r) ⊎ (f ≡ m.running)
  pub main_id : r ≤ m.fiber_id
  pub running_id : m.running ≤ m.fiber_id

pub put_same {ℓ} : {B : Type ℓ} (f : ℕ → B) (i : ℕ) (b : B) → put f i b i ≡ b
put_same f i b = ground arith

pub put_other {ℓ} : {B : Type ℓ} (f : ℕ → B) (i : ℕ) (b : B) (j : ℕ) → j ≢ i → put f i b j ≡ f j
put_other f i b j n = ground arith

is_exec-not : (s : FiberState) → s ≢ exec → is_exec s ≡ false
is_exec-not exec n = absurd (n refl)
is_exec-not ready n = refl
is_exec-not hold n = refl
is_exec-not term n = refl
is_exec-not except n = refl

module _ {ℓ} {A : Type ℓ} where
  abbrev pub with_state : ℕ → Machine A → FiberState → KFiber A
  with_state f m s = record (m.fiber f) { state = s }

  -- The main fiber's code lets a fiber run.
  abbrev pub entered : ℕ → ℕ → Machine A → Machine A
  entered r f m = swap_context r f (set_state exec f (set_this (some f) m))

  -- The code of a fiber gives way to the main fiber, and leaves its state at `s`.
  abbrev pub left : ℕ → FiberState → ℕ → Machine A → Machine A
  left r s f m = swap_context f r (set_this (some r) (set_state s f m))

  pub slots :
      (m : Machine A) (x j : ℕ)
      → ((f : ℕ) → m.context f ≡ f)
      → m.running ≡ x
      → put m.context x m.running j ≡ j
  slots m x j c e = ground (arith, c j)

  pub state_put :
      (fiber : ℕ → KFiber A) (f g : ℕ) (new : KFiber A)
      → (put fiber f new g).state ≡ (if g == f then new.state else (fiber g).state)
  state_put fiber f g new = elim (Bool-cases (g == f)) [ inl e ↦ rw e refl | inr e ↦ rw e refl ]

  pub resume_lem :
      (r f : ℕ) (m : Machine A)
      → m.main ≡ some r
      → (m.fiber f).state ≢ exec
      → resume f m ≡ some (entered r f m)
  unfolding resume swap_in enter set_this set_state
  resume_lem r f m e n = rw (is_exec-not (m.fiber f).state n, e) refl

  pub yeild_to_lem :
      (r f : ℕ) (s : FiberState) (m : Machine A)
      → m.main ≡ some r
      → (m.fiber f).state ≡ exec
      → yeild_to s (some f) m ≡ some (left r s f m)
  unfolding yeild_to swap_out leave set_this set_state
  yeild_to_lem r f s m e x = rw (x, e) refl

  pub entered-IsAlone :
      (r f : ℕ) (m : Machine A)
      → IsAlone r m
      → m.running ≡ r
      → f ≤ m.fiber_id
      → IsAlone r (entered r f m)
  unfolding set_state set_this swap_context
  entered-IsAlone r f m w e h =
      let here = slots m r f w.contexts e in
      record {
        main_is = w.main_is;
        current_is = ap some (sym here);
        contexts = λ g. slots m r g w.contexts e;
        runs = rw (here, state_put m.fiber f f (with_state f m exec)) (ground arith);
        main_runs = rw (state_put m.fiber f r (with_state f m exec)) (ground (arith, w.main_runs));
        alone = λ g x. only g (sym (state_put m.fiber f g (with_state f m exec)) ∙ x);
        main_id = w.main_id;
        running_id = rw here h;
      }
    where
      only :
          (g : ℕ)
          → (if g == f then exec else (m.fiber g).state) ≡ exec
          → (g ≡ r) ⊎ (g ≡ put m.context r m.running f)
      only g x = rw (slots m r f w.contexts e) (elim (Bool-cases (g == f)) [
        | inl q ↦ inr (ground arith)
        | inr q ↦ elim (w.alone g (ground arith)) [ inl p ↦ inl p | inr p ↦ inl (p ∙ e) ]
      ])

  pub left-IsAlone :
      (r : ℕ) (new : KFiber A) (m : Machine A)
      → IsAlone r m
      → m.running ≢ r
      → new.state ≢ exec
      → IsAlone r (
          swap_context m.running r
            (set_this (some r) (record m { fiber = put m.fiber m.running new })))
  unfolding set_this swap_context
  left-IsAlone r new m w n k =
      let here = slots m m.running r w.contexts refl in
      record {
        main_is = w.main_is;
        current_is = ap some (sym here);
        contexts = λ g. slots m m.running g w.contexts refl;
        runs = rw (here, state_put m.fiber m.running r new) main_exec;
        main_runs = rw (state_put m.fiber m.running r new) main_exec;
        alone = λ g x. only g (sym (state_put m.fiber m.running g new) ∙ x);
        main_id = w.main_id;
        running_id = rw here w.main_id;
      }
    where
      main_exec : (if r == m.running then new.state else (m.fiber r).state) ≡ exec
      main_exec = ground (arith, w.main_runs)

      only :
          (g : ℕ)
          → (if g == m.running then new.state else (m.fiber g).state) ≡ exec
          → (g ≡ r) ⊎ (g ≡ put m.context m.running m.running r)
      only g x = elim (Bool-cases (g == m.running)) [
        | inl q ↦ absurd (k (ground arith))
        | inr q ↦ elim (w.alone g (ground arith)) [ inl p ↦ inl p | inr p ↦ absurd (ground arith) ]
      ]
