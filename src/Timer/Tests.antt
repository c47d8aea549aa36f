-- ===== src/Timer/Tests.antt =====
-- Runs of the timers, and the theorems about them at concrete sets.
use mathlib.Core.List.{Perm}
use fiber_kcp.Prelude.{
  ℕ, ◌+◌, ◌≡◌, ◌≢◌, refl, ◌<◌, inl, inr, true, false, none, some, [], ◌∷◌, ◌++◌, arith, All,
}
use fiber_kcp.Timer.{
  add64, KTimer, KTimerManager, new_timer, assign, cancel, reset_timer, set_callback, comparator,
  add_timer, del_timer, alter, list_expired_timer, get_near_timeout, update_timer,
  add_condition_timer,
}
use fiber_kcp.Timer.Order.{IsOrdered}
use fiber_kcp.Timer.Add.{IsTimed, Adds, add_timer-Adds}
use fiber_kcp.Timer.Split.{due, surviving}
use fiber_kcp.Timer.Expiry.{list_expired_timer_runs}
use fiber_kcp.Timer.Due.{get_near_timeout_exact, cancel_order}
use fiber_kcp.Timer.Reachable.{adds, expires, empty_set, one_more, TimerReach-IsTimed}

abbrev once : KTimer ℕ
once = record { tid = 7; time = 10; recycle_time = 0; cb = some 1; unique_id = 2 }

abbrev often : KTimer ℕ
often = record { tid = 7; time = 20; recycle_time = 100; cb = some 2; unique_id = 1 }

abbrev late : KTimer ℕ
late = record { tid = 0; time = 500; recycle_time = 0; cb = some 3; unique_id = 3 }

abbrev three : KTimerManager ℕ
three = record { timers = once ∷ often ∷ late ∷ []; tickle = false; id_count = 3 }

three-IsOrdered : IsOrdered (once ∷ often ∷ late ∷ [])
three-IsOrdered = (
  (inl (omega arith), (inl (omega arith), tt)),
  ((λ e. omega (arith, e)), ((λ e. omega (arith, e)), tt)),
  ((inl (omega arith), tt), ((λ e. omega (arith, e)), tt), (tt, tt, tt)),
)

three-IsTimed : IsTimed three
three-IsTimed = (three-IsOrdered, (omega arith, (omega arith, (omega arith, tt))))

expire_run :
    list_expired_timer three 30 []
    ≡ (record three { timers = update_timer often ∷ late ∷ [] }, (1, 7) ∷ (2, 7) ∷ [])
unfolding list_expired_timer fiber_kcp.Timer.run_expired fiber_kcp.Timer.split_expired
    fiber_kcp.Timer.fire fiber_kcp.Timer.renew fiber_kcp.Timer.insert fiber_kcp.Timer.earlier
    update_timer add64
expire_run = refl

near_run : (get_near_timeout three 4).1 ≡ 6
unfolding get_near_timeout fiber_kcp.Timer.near
near_run = refl

null_first : comparator none (some once) ≡ true
unfolding comparator
null_first = refl

-- A delay counts as too short if it is below the absolute time of expiry.
reset_ignored : reset_timer 100 50 (some 9) 0 1 late ≡ late
unfolding reset_timer
reset_ignored = refl

add_timer-Adds_example :
    Adds three (new_timer 0 3 5 (some 4) 0 0) (add_timer true three 0 5 (some 4) 0 0)
add_timer-Adds_example = add_timer-Adds three 0 5 (some 4) 0 0 (omega arith) three-IsTimed

list_expired_timer_runs_example :
    IsOrdered (list_expired_timer three 30 []).0.timers
    × Perm (list_expired_timer three 30 []).0.timers (surviving 30 three.timers)
    × ((list_expired_timer three 30 []).1 ≡ [] ++ due 30 three.timers)
list_expired_timer_runs_example = list_expired_timer_runs three 30 [] three-IsOrdered

get_near_timeout_exact_example :
    (5 < (get_near_timeout three 4).1
      → (due (4 + 5) three.timers ≡ []) × (surviving (4 + 5) three.timers ≡ three.timers))
    × (three.timers ≢ [] → ¬ All (λ t. 4 + (get_near_timeout three 4).1 < t.time) three.timers)
get_near_timeout_exact_example = get_near_timeout_exact three 4 5 three-IsOrdered

cancel_order_example :
    IsOrdered (alter cancel 2 three.timers) × (¬ IsOrdered (alter cancel 3 three.timers))
cancel_order_example =
    cancel_order once (often ∷ late ∷ []) 3 (omega arith) (inr (inl refl)) three-IsOrdered

abbrev nothing_yet : KTimerManager ℕ
nothing_yet = record { timers = []; tickle = false; id_count = 0 }

abbrev one_timer : KTimerManager ℕ
one_timer = (add_timer true nothing_yet 0 5 (some 4) 10 0).0

TimerReach-IsTimed_example : IsTimed (list_expired_timer one_timer 8 []).0
TimerReach-IsTimed_example = TimerReach-IsTimed (
    one_more one_timer _
      (one_more nothing_yet one_timer (empty_set 0)
        (adds true nothing_yet 0 5 (some 4) 10 0 (omega arith)))
      (expires one_timer 8 []))
