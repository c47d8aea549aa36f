-- ===== src/Fiber/Reachable.antt =====
-- The states of a thread that its fibers lead to.
use fiber_kcp.Prelude.{
  ℕ, ◌-◌, ◌≤◌, ◌<◌, ◌≡◌, ◌≢◌, sym, ◌∙◌, subst, ◌⊎◌, inl, inr, Bool, Option, some, some-injective,
  arith, ◌==◌, Bool-cases,
}
use fiber_kcp.Timer.{u64_mod}
use fiber_kcp.Fiber.{
  ready, hold, exec, Machine, set_state, new_fiber, reset_fiber, call, resume, yeild2hold,
  yeild2ready, end_fiber,
}
use fiber_kcp.Fiber.Alone.{IsAlone, with_state, resume_lem, entered-IsAlone}
use fiber_kcp.Fiber.Steps.{
  ready≢exec, at_rest_state, changed-IsAlone, new_fiber-IsAlone, at_rest, reset_fiber-IsAlone,
  call_lem, BackBreaks, back_breaks, yeilded-IsAlone, ended-IsAlone,
}

-- What the code that runs can do. Only the main fiber's code resumes or calls, and a fiber that is
-- ready or on hold; only other code yields or ends; the scheduler puts a fiber on hold that does not
-- run. `back` is no step, and a fiber that is deleted is not used again.
pub data FiberStep {ℓ} {A : Type ℓ} (r : ℕ) : Machine A → Machine A → Type ℓ where
  creates :
      (m : Machine A) (callback : Option A) (size : ℕ)
      → m.fiber_id < u64_mod - 1
      → FiberStep r m (new_fiber callback size m)
  resets :
      (m m' : Machine A) (callback : Option A) (f : ℕ)
      → reset_fiber callback f m ≡ some m'
      → FiberStep r m m'
  resumes :
      (m m' : Machine A) (f : ℕ)
      → m.running ≡ r
      → f ≤ m.fiber_id
      → ((m.fiber f).state ≡ ready) ⊎ ((m.fiber f).state ≡ hold)
      → resume f m ≡ some m'
      → FiberStep r m m'
  calls :
      (m m' : Machine A) (f : ℕ)
      → m.running ≡ r
      → f ≤ m.fiber_id
      → ((m.fiber f).state ≡ ready) ⊎ ((m.fiber f).state ≡ hold)
      → call f m ≡ some m'
      → FiberStep r m m'
  holds : (m m' : Machine A) → m.running ≢ r → yeild2hold m ≡ some m' → FiberStep r m m'
  readies : (m m' : Machine A) → m.running ≢ r → yeild2ready m ≡ some m' → FiberStep r m m'
  ends :
      (m m' : Machine A) (thrown : Bool)
      → m.running ≢ r
      → end_fiber thrown m ≡ some m'
      → FiberStep r m m'
  parks : (m : Machine A) (f : ℕ) → (m.fiber f).state ≢ exec → FiberStep r m (set_state hold f m)

-- From the machine `m₀` on.
pub data FiberReach {ℓ} {A : Type ℓ} (r : ℕ) (m₀ : Machine A) : Machine A → Type ℓ where
  at_start : FiberReach r m₀ m₀
  goes_on : (m m' : Machine A) → FiberReach r m₀ m → FiberStep r m m' → FiberReach r m₀ m'

module _ {ℓ} {A : Type ℓ} where
  FiberStep-IsAlone : (r : ℕ) {m m' : Machine A} → FiberStep r m m' → IsAlone r m → IsAlone r m'
  unfolding yeild2hold yeild2ready end_fiber set_state
  FiberStep-IsAlone r (creates m callback size h) w = new_fiber-IsAlone r m callback size h w
  FiberStep-IsAlone r (resets m m' callback f e) w = reset_fiber-IsAlone r m m' callback f e w
  FiberStep-IsAlone r (resumes m m' f e h s x) w =
      let lem = resume_lem r f m w.main_is (at_rest_state (m.fiber f).state s) in
      subst (IsAlone r) (some-injective _ m' (sym lem ∙ x)) (entered-IsAlone r f m w e h)
  FiberStep-IsAlone r (calls m m' f e h s x) w =
      subst (IsAlone r) (some-injective _ m' (sym (call_lem r f m w.main_is) ∙ x))
        (entered-IsAlone r f m w e h)
  FiberStep-IsAlone r (holds m m' n e) w = yeilded-IsAlone r hold m m' (λ x. cc) n e w
  FiberStep-IsAlone r (readies m m' n e) w = yeilded-IsAlone r ready m m' ready≢exec n e w
  FiberStep-IsAlone r (ends m m' thrown n e) w = ended-IsAlone r thrown m m' n e w
  FiberStep-IsAlone r (parks m f n) w =
      let (x, y) = at_rest r f m w n in changed-IsAlone r f (with_state f m hold) m w x y (λ e. cc)

  reached-IsAlone : (r : ℕ) {m₀ m : Machine A} → IsAlone r m₀ → FiberReach r m₀ m → IsAlone r m
  reached-IsAlone r w at_start = w
  reached-IsAlone r w (goes_on m m' x s) = FiberStep-IsAlone r s (reached-IsAlone r w x)

  -- However the fibers of a thread are created, reset, resumed or called, yield, end and are put
  -- on hold, where only the main fiber resumes and calls, and fibers that are ready or on hold: at
  -- most one fiber runs besides the main one, which waits for it; it is the one that gCurrentFiber
  -- names, and every context holds its own fiber's code. The one other way to give control away,
  -- back, always breaks this.
  pub FiberReach-IsAlone :
      (r : ℕ) {m₀ m : Machine A}
      → IsAlone r m₀
      → FiberReach r m₀ m
      → IsAlone r m × ((m.running ≡ r) ⊎ BackBreaks r m)
  FiberReach-IsAlone r {m = m} w x =
      let v = reached-IsAlone r w x in
      (
        v,
        elim (Bool-cases (m.running == r)) [
          | inl e ↦ inl (ground (arith, e))
          | inr e ↦ inr (back_breaks r m v (ground (arith, e)))
        ],
      )
