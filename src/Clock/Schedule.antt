-- ===== src/Clock/Schedule.antt =====
-- The flush times that `ikcp_update` sets, ikcp.c:1146-1171.
use fiber_kcp.Prelude.{
  ℕ, ◌≤◌, ◌<◌, ◌≡◌, ◌≢◌, ◌⊎◌, refl, arith, ap, sym, ◌∙◌, subst, ltb, ◌==◌, if◌then◌else◌,
  Bool-cases, inl, inr, List, [], is_neg, if_cases, true, false,
}
use fiber_kcp.Word.{u32_mod, add32, sub32, itimediff}
use fiber_kcp.Control.{Ikcpcb}
use fiber_kcp.Flush.{flush}
use fiber_kcp.Flush.Timing.{clock_of, flush-clock}
use fiber_kcp.Clock.{update, start_clock, reset_flush, next_flush, far_off}

-- The flush time `t` as it stands after the clock was set: due, or within ten seconds.
abbrev pub IsDue : ℕ → ℕ → Type 0
IsDue now t = sub32 now t < 10000

abbrev pub IsAhead : ℕ → ℕ → Type 0
IsAhead now t = (0 < sub32 t now) × (sub32 t now ≤ 10000)

pub near_lem :
    (now t : ℕ)
    → now < u32_mod
    → t < u32_mod
    → far_off (itimediff now t) ≡ false
    → IsDue now t ⊎ IsAhead now t
unfolding far_off itimediff
near_lem now t hn ht e = elim (Bool-cases (ltb (sub32 now t) 10000)) [
  | inl due ↦ inl (ground arith)
  | inr later ↦ inr (ground arith, ground arith)
]

-- A control block whose clock is set: it tells `now`, runs, and flushes within ten seconds.
pub record IsClocked (k : Ikcpcb) (now : ℕ) : Type 0 where
  pub current : k.current ≡ now
  pub updated : k.updated ≢ 0
  pub flush_time : k.ts_flush < u32_mod
  pub near : IsDue now k.ts_flush ⊎ IsAhead now k.ts_flush

reset_flush-IsClocked :
    (k : Ikcpcb) (now : ℕ)
    → now < u32_mod
    → k.ts_flush < u32_mod
    → k.current ≡ now
    → k.updated ≢ 0
    → IsClocked (reset_flush k now) now × ((reset_flush k now).interval ≡ k.interval)
unfolding reset_flush
reset_flush-IsClocked k now hn ht c u =
    if_cases (λ x. IsClocked x now × (x.interval ≡ k.interval)) (far_off (itimediff now k.ts_flush))
      _ _
      (λ far.
        (record { current = c; updated = u; flush_time = hn; near = inl (omega arith) }, refl))
      (λ near. (
        record {
          current = c;
          updated = u;
          flush_time = ht;
          near = near_lem now k.ts_flush hn ht near;
        },
        refl,
      ))

start_clock_lem :
    (k : Ikcpcb) (now : ℕ)
    → now < u32_mod
    → k.ts_flush < u32_mod
    → ((start_clock k now).current ≡ now)
      × ((start_clock k now).updated ≢ 0)
      × ((start_clock k now).ts_flush < u32_mod)
      × ((start_clock k now).interval ≡ k.interval)
unfolding start_clock
start_clock_lem k now hn ht =
    if_cases
      (λ (x : Ikcpcb).
        (x.current ≡ now) × (x.updated ≢ 0) × (x.ts_flush < u32_mod) × (x.interval ≡ k.interval))
      (k.updated == 0) _ _ (λ _. (refl, (λ e. omega (arith, e)), hn, refl))
      (λ on. (refl, (λ e. ground (arith, e)), ht, refl))

abbrev pub set_clock : Ikcpcb → ℕ → Ikcpcb
set_clock k now = reset_flush (start_clock k now) now

-- `ikcp_update` by its parts.
pub update_lem :
    (k : Ikcpcb) (now : ℕ)
    → update k now ≡ (
        if is_neg (itimediff now (set_clock k now).ts_flush)
        then (set_clock k now, [])
        else flush (next_flush (set_clock k now)))
unfolding update
update_lem k now = refl

pub set_clock-IsClocked :
    (k : Ikcpcb) (now : ℕ)
    → now < u32_mod
    → k.ts_flush < u32_mod
    → IsClocked (set_clock k now) now × ((set_clock k now).interval ≡ k.interval)
set_clock-IsClocked k now hn ht =
    let (c, u, t, i) = start_clock_lem k now hn ht in
    let (w, j) = reset_flush-IsClocked (start_clock k now) now hn t c u in (w, j ∙ i)

-- A flush time that is due is less than ten seconds ago.
due_lem :
    (now t : ℕ)
    → now < u32_mod
    → t < u32_mod
    → IsDue now t ⊎ IsAhead now t
    → is_neg (itimediff now t) ≡ false
    → IsDue now t
unfolding itimediff
due_lem now t hn ht (inl d) e = d
due_lem now t hn ht (inr a) e = absurd (ground (arith, a.0, a.1))

pub early_lem :
    (now t : ℕ)
    → now < u32_mod
    → t < u32_mod
    → IsDue now t ⊎ IsAhead now t
    → is_neg (itimediff now t) ≡ true
    → IsAhead now t
unfolding itimediff
early_lem now t hn ht (inl d) e = absurd (ground arith)
early_lem now t hn ht (inr a) e = a

ahead_lem :
    (now t interval : ℕ)
    → now < u32_mod
    → t < u32_mod
    → interval ≤ 5000
    → IsDue now t
    → is_neg (itimediff now (add32 t interval)) ≡ true
    → IsAhead now (add32 t interval)
unfolding itimediff
ahead_lem now t interval hn ht hi d e = (ground arith, ground arith)

next_flush-IsClocked :
    (k : Ikcpcb) (now : ℕ)
    → now < u32_mod
    → IsClocked k now
    → 0 < k.interval
    → k.interval ≤ 5000
    → is_neg (itimediff now k.ts_flush) ≡ false
    → IsClocked (next_flush k) now × IsAhead now (next_flush k).ts_flush
unfolding next_flush
next_flush-IsClocked k now hn w i0 i1 e = (
  record { current = w.current; updated = w.updated; flush_time = ahead.0; near = inr ahead.1 },
  ahead.1,
)
  where
    ahead : ((next_flush k).ts_flush < u32_mod) × IsAhead now (next_flush k).ts_flush
    ahead =
        if_cases (λ t. (t < u32_mod) × IsAhead now t)
          (is_neg (itimediff k.current (add32 k.ts_flush k.interval))) _ _
          (λ before. (
            omega arith,
            ahead_lem now k.ts_flush k.interval hn w.flush_time i1
                (due_lem now k.ts_flush hn w.flush_time w.near e)
                (subst (λ n. is_neg (itimediff n (add32 k.ts_flush k.interval)) ≡ true) w.current
                  before),
          ))
          (λ _. (omega arith, (omega (arith, w.current), omega (arith, w.current))))

-- The next flush stands at most ten seconds ahead of the clock, once set.
flush-IsClocked : (k : Ikcpcb) (now : ℕ) → IsClocked k now → IsClocked (flush k).0 now
flush-IsClocked k now w = record {
  current = ap (λ (c : ℕ × ℕ × ℕ × ℕ). c.1) e ∙ w.current;
  updated = λ z. w.updated (sym (ap (λ (c : ℕ × ℕ × ℕ × ℕ). c.2) e) ∙ z);
  flush_time = omega (arith, t, w.flush_time);
  near = subst (λ t. IsDue now t ⊎ IsAhead now t) (sym t) w.near;
}
  where
    e : clock_of (flush k).0 ≡ clock_of k
    e = flush-clock k

    t : (flush k).0.ts_flush ≡ k.ts_flush
    t = ap (λ (c : ℕ × ℕ × ℕ × ℕ). c.0) e

-- ikcp_update at any 32-bit time, whatever the times before were, with an interval between 1 and
-- 5000: the clock tells now and runs, and the next flush lies ahead, by at most ten seconds.
pub update_schedules :
    (k : Ikcpcb) (now : ℕ)
    → now < u32_mod
    → k.ts_flush < u32_mod
    → 0 < k.interval
    → k.interval ≤ 5000
    → IsClocked (update k now).0 now × IsAhead now (update k now).0.ts_flush
update_schedules k now hn ht i0 i1 =
    subst (λ (r : Ikcpcb × List (List ℕ)). IsClocked r.0 now × IsAhead now r.0.ts_flush)
      (sym (update_lem k now))
      (if_cases (λ (r : Ikcpcb × List (List ℕ)). IsClocked r.0 now × IsAhead now r.0.ts_flush)
        (is_neg (itimediff now (set_clock k now).ts_flush)) _ _
        (λ early. (w, early_lem now (set_clock k now).ts_flush hn w.flush_time w.near early))
        (λ due.
          let (v, a) =
            next_flush-IsClocked (set_clock k now) now hn w (omega (arith, i)) (omega (arith, i))
              due in
          (
            flush-IsClocked (next_flush (set_clock k now)) now v,
            subst (IsAhead now)
                (sym (ap (λ (c : ℕ × ℕ × ℕ × ℕ). c.0) (flush-clock (next_flush (set_clock k now)))))
                a,
          )))
  where
    w : IsClocked (set_clock k now) now
    w = (set_clock-IsClocked k now hn ht).0

    i : (set_clock k now).interval ≡ k.interval
    i = (set_clock-IsClocked k now hn ht).1
