-- ===== src/Fiber/Steps.antt =====
-- What each operation of a fiber does to the invariant, kfiber.cpp:55-223.
use fiber_kcp.Prelude.{
  ℕ, ◌-◌, ◌≤◌, ◌<◌, ◌≡◌, ◌≢◌, refl, sym, ◌∙◌, subst, ap, ◌⊎◌, inl, inr, Bool, true, false, Option,
  none, some, some-injective, arith, ◌==◌, if◌then◌else◌, Bool-cases, ◌&&◌, ◌||◌,
}
use fiber_kcp.Timer.{u64_mod, add64}
use fiber_kcp.Fiber.{
  FiberState, ready, hold, exec, term, except, is_over, is_ready, KFiber, Machine, put, set_this,
  set_state, get_stack_size, new_fiber, reset_fiber, swap_out, enter, leave, call, back, yeild_to,
  fiber_entry, swap_context,
}
use fiber_kcp.Fiber.Alone.{
  IsAlone, with_state, entered, slots, yeild_to_lem, state_put, left-IsAlone,
}

refused {ℓ} :
    {B : Type ℓ} (x : B) {y : B} {b : Bool} → b ≡ false → (if b then some x else none) ≡ some y → ⊥
refused x c e = ground arith

accepted {ℓ} :
    {B : Type ℓ} {x y : B} {b : Bool}
    → b ≡ true
    → (if b then some x else none) ≡ some y
    → some x ≡ some y
accepted c e = ground arith

pub ready≢exec : ready ≢ exec
ready≢exec e = cc

resettable : (s : FiberState) (b : Bool) → (b && (is_over s || is_ready s)) ≡ true → s ≢ exec
resettable exec b c = absurd (ground arith)
resettable ready b c = ready≢exec
resettable hold b c = λ e. cc
resettable term b c = λ e. cc
resettable except b c = λ e. cc

pub at_rest_state : (s : FiberState) → (s ≡ ready) ⊎ (s ≡ hold) → s ≢ exec
at_rest_state s (inl e) x = cc
at_rest_state s (inr e) x = cc

module _ {ℓ} {A : Type ℓ} where
  -- A fiber that does not run, or that is new, takes another state.
  pub changed-IsAlone :
      (r f : ℕ) (new : KFiber A) (m : Machine A)
      → IsAlone r m
      → f ≢ r
      → f ≢ m.running
      → new.state ≢ exec
      → IsAlone r (record m { fiber = put m.fiber f new })
  changed-IsAlone r f new m w n n' k = record {
    main_is = w.main_is;
    current_is = w.current_is;
    contexts = w.contexts;
    runs = rw (state_put m.fiber f m.running new) (ground (arith, w.runs));
    main_runs = rw (state_put m.fiber f r new) (ground (arith, w.main_runs));
    alone = λ g x. only g (sym (state_put m.fiber f g new) ∙ x);
    main_id = w.main_id;
    running_id = w.running_id;
  }
    where
      only :
          (g : ℕ)
          → (if g == f then new.state else (m.fiber g).state) ≡ exec
          → (g ≡ r) ⊎ (g ≡ m.running)
      only g x = elim (Bool-cases (g == f)) [
        | inl q ↦ absurd (k (ground arith))
        | inr q ↦ w.alone g (ground arith)
      ]

  -- The slot of a fiber is filled with its own code again.
  refilled-IsAlone :
      (r f count : ℕ) (m : Machine A)
      → IsAlone r m
      → m.fiber_id ≤ f
      → (n : ℕ)
      → IsAlone r (record m { context = put m.context count count; fiber_id = f; fiber_count = n })
  refilled-IsAlone r f count m w h n = record {
    main_is = w.main_is;
    current_is = w.current_is;
    contexts = λ g. ground (arith, w.contexts g);
    runs = w.runs;
    main_runs = w.main_runs;
    alone = w.alone;
    main_id = omega (arith, w.main_id);
    running_id = omega (arith, w.running_id);
  }

  pub new_fiber-IsAlone :
      (r : ℕ) (m : Machine A) (callback : Option A) (size : ℕ)
      → m.fiber_id < u64_mod - 1
      → IsAlone r m
      → IsAlone r (new_fiber callback size m)
  unfolding new_fiber add64
  new_fiber-IsAlone r m callback size h w =
      let id = add64 m.fiber_id 1 in
      let new : KFiber A = record {
        state = ready;
        stack_size = if size == 0 then get_stack_size else size;
        has_stack = true;
        cb = callback;
      } in
      refilled-IsAlone r id id (record m { fiber = put m.fiber id new })
        (changed-IsAlone r id new m w (λ e. omega (arith, w.main_id, e))
          (λ e. omega (arith, w.running_id, e)) ready≢exec)
        (omega arith) (add64 m.fiber_count 1)

  pub at_rest :
      (r f : ℕ) (m : Machine A) → IsAlone r m → (m.fiber f).state ≢ exec → (f ≢ r) × (f ≢ m.running)
  at_rest r f m w n = (
    (λ e. n (ap (λ g. (m.fiber g).state) e ∙ w.main_runs)),
    (λ e. n (ap (λ g. (m.fiber g).state) e ∙ w.runs)),
  )

  pub reset_fiber-IsAlone :
      (r : ℕ) (m m' : Machine A) (callback : Option A) (f : ℕ)
      → reset_fiber callback f m ≡ some m'
      → IsAlone r m
      → IsAlone r m'
  unfolding reset_fiber
  reset_fiber-IsAlone r m m' callback f e w =
      let new = record (m.fiber f) { state = ready; cb = callback } in
      elim (Bool-cases
        ((m.fiber f).has_stack && (is_over (m.fiber f).state || is_ready (m.fiber f).state))) [
          | inr c ↦ absurd (refused _ c e)
          | inl c ↦
              let (n, n') =
                at_rest r f m w (resettable (m.fiber f).state (m.fiber f).has_stack c) in
              subst (IsAlone r) (some-injective _ m' (accepted c e)) (
                refilled-IsAlone r m.fiber_id f (record m { fiber = put m.fiber f new })
                  (changed-IsAlone r f new m w n n' ready≢exec) (omega arith) m.fiber_count)
        ]

  pub call_lem : (r f : ℕ) (m : Machine A) → m.main ≡ some r → call f m ≡ some (entered r f m)
  unfolding call enter set_this set_state
  call_lem r f m e = rw e refl

  -- The fiber that gives way by `back` still counts as running, and is neither the main one nor the
  -- one that runs.
  abbrev pub BackBreaks : ℕ → Machine A → Type ℓ
  BackBreaks r m = (m' : Machine A) × (back m.running m ≡ some m') × (¬ IsAlone r m')

  pub back_breaks : (r : ℕ) (m : Machine A) → IsAlone r m → m.running ≢ r → BackBreaks r m
  unfolding back leave set_this swap_context
  back_breaks r m w n = (
    swap_context m.running r (set_this (some r) m),
    rw w.main_is refl,
    λ v. elim (v.alone m.running w.runs) [
      | inl e ↦ n e
      | inr e ↦ n (e ∙ slots m m.running r w.contexts refl)
    ],
  )

  swap_out_lem :
      (r f : ℕ) (m : Machine A)
      → m.main ≡ some r
      → swap_out f m ≡ some (swap_context f r (set_this (some r) m))
  unfolding swap_out leave set_this
  swap_out_lem r f m e = rw e refl

  pub yeilded-IsAlone :
      (r : ℕ) (s : FiberState) (m m' : Machine A)
      → s ≢ exec
      → m.running ≢ r
      → yeild_to s m.current m ≡ some m'
      → IsAlone r m
      → IsAlone r m'
  unfolding set_state
  yeilded-IsAlone r s m m' k n e w =
      let now = ap (λ c. yeild_to s c m) w.current_is in
      let lem = yeild_to_lem r m.running s m w.main_is w.runs in
      subst (IsAlone r) (some-injective _ m' (sym lem ∙ sym now ∙ e))
        (left-IsAlone r (with_state m.running m s) m w n k)

  pub ended-IsAlone :
      (r : ℕ) (thrown : Bool) (m m' : Machine A)
      → m.running ≢ r
      → fiber_entry thrown m.running m ≡ some m'
      → IsAlone r m
      → IsAlone r m'
  unfolding fiber_entry set_state
  ended-IsAlone r true m m' n e w =
      let new = with_state m.running m except in
      let lem =
        swap_out_lem r m.running (record m { fiber = put m.fiber m.running new }) w.main_is in
      subst (IsAlone r) (some-injective _ m' (sym lem ∙ e)) (left-IsAlone r new m w n (λ x. cc))
  ended-IsAlone r false m m' n e w =
      let new = record (m.fiber m.running) { state = term; cb = none } in
      let lem =
        swap_out_lem r m.running (record m { fiber = put m.fiber m.running new }) w.main_is in
      subst (IsAlone r) (some-injective _ m' (sym lem ∙ e)) (left-IsAlone r new m w n (λ x. cc))
