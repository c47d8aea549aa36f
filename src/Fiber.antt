-- ===== src/Fiber.antt =====
-- kfiber.h and kfiber.cpp. The fibers of one thread. A context slot (`mCtx`) holds the code of some
-- fiber, which goes on when the slot is loaded; `swapcontext` fills one slot with the code that
-- runs and loads another. `getcontext`, `makecontext` and `malloc` are taken to succeed, as the
-- assertions behind them demand. An operation that fails an assertion, or uses a null pointer,
-- returns `none`. A fiber that has ended and is resumed all the same fails the assertion at the end of
-- its code (kfiber.cpp:222) when it runs; `resume` is only the switch to it.
pub mod Alone
pub mod Steps
pub mod Reachable
pub mod Switch
mod Tests
use fiber_kcp.Prelude.{
  ℕ, zero, suc, ◌+◌, ◌-◌, ◌*◌, ◌%◌, ◌^◌, Bool, true, false, not, ◌&&◌, ◌||◌, Option, none, some,
  ◌==◌, if◌then◌else◌,
}
use fiber_kcp.Timer.{add64}

pub data FiberState : Type 0 where
  ready : FiberState
  hold : FiberState
  exec : FiberState
  term : FiberState
  except : FiberState

abbrev pub is_exec : FiberState → Bool
is_exec exec = true
is_exec _ = false

-- kfiber.cpp:84, 100.
abbrev pub is_over : FiberState → Bool
is_over term = true
is_over except = true
is_over _ = false

abbrev pub is_ready : FiberState → Bool
is_ready ready = true
is_ready _ = false

pub record KFiber {ℓ} (A : Type ℓ) : Type ℓ where
  pub state : FiberState
  pub stack_size : ℕ
  pub has_stack : Bool
  pub cb : Option A

-- `fiber` and `context` are the objects by their id, `current` and `main` are `gCurrentFiber` and
-- `gThreadMainFiber`, `running` is the fiber whose code the processor runs, and the counters are
-- `gFiberId` and `gFiberCount`.
pub record Machine {ℓ} (A : Type ℓ) : Type ℓ where
  pub fiber : ℕ → KFiber A
  pub context : ℕ → ℕ
  pub current : Option ℕ
  pub main : Option ℕ
  pub running : ℕ
  pub fiber_id : ℕ
  pub fiber_count : ℕ

abbrev pub put {ℓ} : {B : Type ℓ} → (ℕ → B) → ℕ → B → ℕ → B
put f i b j = if j == i then b else f j

pub get_stack_size : ℕ
get_stack_size = 1024 * 128

module _ {ℓ} {A : Type ℓ} where
  pub set_this : Option ℕ → Machine A → Machine A
  set_this f m = record m { current = f }

  unfoldable pub set_state : FiberState → ℕ → Machine A → Machine A
  set_state s f m = record m { fiber = put m.fiber f (record (m.fiber f) { state = s }) }

  pub get_state : Machine A → ℕ → FiberState
  get_state m f = (m.fiber f).state

  -- The slot `from` takes the code that runs, and the code in the slot `to` goes on.
  unfoldable pub swap_context : ℕ → ℕ → Machine A → Machine A
  swap_context from to m =
      let context' = put m.context from m.running in
      record m { context = context'; running = context' to }

  -- kfiber.cpp:43-53, for the thread's own code. Its stack pointer is left as it was, `stale`.
  pub first_fiber : Bool → Machine A → Machine A
  first_fiber stale m =
      let id = add64 m.fiber_id 1 in
      record m {
        fiber =
            put m.fiber id (record { state = exec; stack_size = 0; has_stack = stale; cb = none });
        context = put m.context id id;
        current = some id;
        running = id;
        fiber_id = id;
        fiber_count = add64 m.fiber_count 1;
      }

  -- kfiber.cpp:136-146.
  pub get_this : Bool → Machine A → Machine A
  get_this stale m = elim m.current [
    | some f ↦ m
    | none ↦ let m' = first_fiber stale m in record m' { main = m'.current }
  ]

  -- kfiber.cpp:55-77.
  unfoldable pub new_fiber : Option A → ℕ → Machine A → Machine A
  new_fiber callback size m =
      let id = add64 m.fiber_id 1 in
      record m {
        fiber = put m.fiber id (record {
          state = ready;
          stack_size = if size == 0 then get_stack_size else size;
          has_stack = true;
          cb = callback;
        });
        context = put m.context id id;
        fiber_id = id;
        fiber_count = add64 m.fiber_count 1;
      }

  -- kfiber.cpp:96-111.
  unfoldable pub reset_fiber : Option A → ℕ → Machine A → Option (Machine A)
  reset_fiber callback f m =
      if (m.fiber f).has_stack && (is_over (m.fiber f).state || is_ready (m.fiber f).state)
      then some (record m {
        fiber = put m.fiber f (record (m.fiber f) { state = ready; cb = callback });
        context = put m.context f f;
      })
      else none

  -- kfiber.cpp:79-93, but for the memory that it gives back.
  pub delete_fiber : ℕ → Machine A → Option (Machine A)
  delete_fiber f m =
      let m' = record m { fiber_count = (m.fiber_count + (2 ^ 64 - 1)) % 2 ^ 64 } in
      if (m.fiber f).has_stack
      then (if is_over (m.fiber f).state then some m' else none)
      else elim (m.fiber f).cb [
        | some c ↦ none
        | none ↦ elim m.current [
          | none ↦ some m'
          | some g ↦ if g == f then some (set_this none m') else some m'
        ]
      ]

  -- kfiber.cpp:118 and 152, where a thread without a main fiber uses a null pointer.
  pub enter : Option ℕ → ℕ → Machine A → Option (Machine A)
  enter none f m = none
  enter (some r) f m = some (swap_context r f m)

  -- kfiber.cpp:126 and 160.
  pub leave : Option ℕ → ℕ → Machine A → Option (Machine A)
  leave none f m = none
  leave (some r) f m = some (swap_context f r m)

  -- kfiber.cpp:113-121.
  unfoldable pub swap_in : ℕ → Machine A → Option (Machine A)
  swap_in f m =
      if is_exec (m.fiber f).state
      then none
      else enter m.main f (set_state exec f (set_this (some f) m))

  unfoldable pub swap_out : ℕ → Machine A → Option (Machine A)
  swap_out f m = leave m.main f (set_this m.main m)

  -- kfiber.cpp:148-155, which has no assertion on the state.
  pub call : ℕ → Machine A → Option (Machine A)
  call f m = enter m.main f (set_state exec f (set_this (some f) m))

  -- kfiber.cpp:157-163.
  pub back : ℕ → Machine A → Option (Machine A)
  back f m = leave m.main f (set_this m.main m)

  unfoldable pub resume : ℕ → Machine A → Option (Machine A)
  resume f m = swap_in f m

  -- kfiber.cpp:170-186, on what `GetThis` returns.
  pub yeild_to : FiberState → Option ℕ → Machine A → Option (Machine A)
  yeild_to s none m = none
  yeild_to s (some f) m = if is_exec (m.fiber f).state then swap_out f (set_state s f m) else none

  unfoldable pub yeild2hold : Machine A → Option (Machine A)
  yeild2hold m = yeild_to hold m.current m

  unfoldable pub yeild2ready : Machine A → Option (Machine A)
  yeild2ready m = yeild_to ready m.current m

  -- kfiber.cpp:201-223 from the return of the callback on; `thrown` tells whether it threw.
  pub fiber_entry : Bool → ℕ → Machine A → Option (Machine A)
  fiber_entry true f m = swap_out f (set_state except f m)
  fiber_entry false f m =
      swap_out f
        (record m { fiber = put m.fiber f (record (m.fiber f) { state = term; cb = none }) })

  -- The fiber that `curr` holds is the one that runs the entry function.
  unfoldable pub end_fiber : Bool → Machine A → Option (Machine A)
  end_fiber thrown m = fiber_entry thrown m.running m

  -- kfiber.cpp:193-199.
  pub get_fiber_id : Machine A → ℕ
  get_fiber_id m = elim m.current [ some f ↦ f | none ↦ 0 ]
