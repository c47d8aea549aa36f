-- ===== src/Fiber/Switch.antt =====
-- What a switch to a fiber and back leaves behind, from the main fiber's code and from another's.
use fiber_kcp.Prelude.{
  ℕ, ◌≡◌, ◌≢◌, refl, sym, ◌∙◌, ap, inl, inr, Bool, true, false, some, arith, ◌==◌, if◌then◌else◌,
  Bool-cases,
}
use fiber_kcp.Fiber.{
  hold, exec, KFiber, Machine, put, set_this, set_state, swap_context, resume, yeild2hold,
}
use fiber_kcp.Fiber.Alone.{
  IsAlone, with_state, entered, left, put_same, put_other, resume_lem, yeild_to_lem,
}

if_true {ℓ} : {B : Type ℓ} {b : Bool} {x : B} (y : B) → b ≡ true → (if b then x else y) ≡ x
if_true y e = rw e refl

if_false {ℓ} : {B : Type ℓ} {b : Bool} {y : B} (x : B) → b ≡ false → (if b then x else y) ≡ y
if_false x e = rw e refl

module _ {ℓ} {A : Type ℓ} where
  -- The fiber `f` was resumed and has yielded: the code of `code` runs.
  abbrev pub Returns : ℕ → ℕ → ℕ → Machine A → Machine A → Type ℓ
  Returns r f code m m'' =
      (m' : Machine A) × (resume f m ≡ some m')
      × (m'.running ≡ f)
      × (m'.current ≡ some f)
      × (yeild2hold m' ≡ some m'')
      × (m''.running ≡ code)
      × (m''.current ≡ some r)
      × ((m''.fiber f).state ≡ hold)
      × ((g : ℕ) → g ≢ f → m''.fiber g ≡ m.fiber g)

  -- A fiber that does not run, resumed by the code of `code`.
  Returns-left :
      (r f code : ℕ) (m : Machine A)
      → m.main ≡ some r
      → ((g : ℕ) → m.context g ≡ g)
      → m.running ≡ code
      → (m.fiber f).state ≢ exec
      → f ≢ r
      → Returns r f code m (left r hold f (entered r f m))
  unfolding yeild2hold set_state set_this swap_context
  Returns-left r f code m e c h n k = (
    entered r f m,
    resume_lem r f m e n,
    put_other m.context r m.running f k ∙ c f,
    refl,
    yeild_to_lem r f hold (entered r f m) e (rw (put_same m.fiber f (with_state f m exec)) refl),
    put_other (put m.context r m.running) f _ r (λ q. k (sym q))
        ∙ put_same m.context r m.running
        ∙ h,
    refl,
    ap (λ (x : KFiber A). x.state)
        (put_same (entered r f m).fiber f (with_state f (entered r f m) hold)),
    λ g q. put_other (put m.fiber f _) f _ g q ∙ put_other m.fiber f _ g q,
  )

  -- The main fiber's code resumes a fiber that does not run, and it yields at once: the main
  -- fiber's code goes on under its own name, the fiber is on hold, and no other fiber has changed.
  pub yeild2hold-resume :
      (r f : ℕ) (m : Machine A)
      → IsAlone r m
      → m.running ≡ r
      → (m.fiber f).state ≢ exec
      → (m' : Machine A) × Returns r f r m m'
  yeild2hold-resume r f m w e n = (
    _,
    Returns-left r f r m w.main_is w.contexts e n
        (λ q. n (ap (λ g. (m.fiber g).state) q ∙ w.main_runs)),
  )

  -- A fiber other than the main one that resumes a third, which yields, goes on, but under the
  -- name of the main fiber, and no context holds the main fiber's code any more: nothing that is
  -- loaded from a context can run it again.
  pub nested_resume :
      (r f : ℕ) (m : Machine A)
      → IsAlone r m
      → m.running ≢ r
      → (m.fiber f).state ≢ exec
      → (m' : Machine A) × Returns r f m.running m m' × ((g : ℕ) → m'.context g ≢ r)
  unfolding set_state set_this swap_context
  nested_resume r f m w n k = (
    left r hold f (entered r f m),
    Returns-left r f m.running m w.main_is w.contexts refl k back,
    lost,
  )
    where
      back : f ≢ r
      back q = k (ap (λ g. (m.fiber g).state) q ∙ w.main_runs)

      slot : put m.context r m.running f ≡ f
      slot = put_other m.context r m.running f back ∙ w.contexts f

      lost : (g : ℕ) → put (put m.context r m.running) f (put m.context r m.running f) g ≢ r
      lost g x = elim (Bool-cases (g == f)) [
        | inl q ↦ back (sym slot ∙ sym (if_true _ q) ∙ x)
        | inr q ↦ elim (Bool-cases (g == r)) [
          | inl q' ↦ n (sym (if_true _ q') ∙ sym (if_false _ q) ∙ x)
          | inr q' ↦
              absurd (ground (arith, w.contexts g, sym (if_false _ q') ∙ sym (if_false _ q) ∙ x))
        ]
      ]
