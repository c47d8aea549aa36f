-- ===== src/Clock/Safe.antt =====
-- The invariant of a control block behind `ikcp_update`.
use fiber_kcp.Prelude.{ℕ, ◌<◌, arith, sym, subst, ◌==◌, if_cases, is_neg, List}
use fiber_kcp.Word.{u32_mod, add32, itimediff}
use fiber_kcp.Control.{Ikcpcb}
use fiber_kcp.Ack.Safe.{IsWell}
use fiber_kcp.Flush.Safe.{flush-IsWell}
use fiber_kcp.Clock.{update, start_clock, reset_flush, next_flush, far_off}
use fiber_kcp.Clock.Schedule.{set_clock, update_lem}

start_clock-IsWell : (k : Ikcpcb) (now : ℕ) → now < u32_mod → IsWell k → IsWell (start_clock k now)
unfolding start_clock
start_clock-IsWell k now hn w =
    if_cases IsWell (k.updated == 0) _ _
      (λ _. record {
        sending = w.sending;
        receiving = w.receiving;
        run = w.run;
        queue = w.queue;
        send_wnd = w.send_wnd;
        flush_time = hn;
      })
      (λ _. record {
        sending = w.sending;
        receiving = w.receiving;
        run = w.run;
        queue = w.queue;
        send_wnd = w.send_wnd;
        flush_time = w.flush_time;
      })

reset_flush-IsWell : (k : Ikcpcb) (now : ℕ) → now < u32_mod → IsWell k → IsWell (reset_flush k now)
unfolding reset_flush
reset_flush-IsWell k now hn w =
    if_cases IsWell (far_off (itimediff now k.ts_flush)) _ _
      (λ _. record {
        sending = w.sending;
        receiving = w.receiving;
        run = w.run;
        queue = w.queue;
        send_wnd = w.send_wnd;
        flush_time = hn;
      })
      (λ _. w)

next_flush-IsWell : (k : Ikcpcb) → IsWell k → IsWell (next_flush k)
unfolding next_flush
next_flush-IsWell k w = record {
  sending = w.sending;
  receiving = w.receiving;
  run = w.run;
  queue = w.queue;
  send_wnd = w.send_wnd;
  flush_time =
      if_cases (λ t. t < u32_mod) (is_neg (itimediff k.current (add32 k.ts_flush k.interval))) _ _
        (λ _. omega arith) (λ _. omega arith);
}

-- `ikcp_update` at any 32-bit time keeps both sides well formed.
pub update-IsWell : (k : Ikcpcb) (now : ℕ) → now < u32_mod → IsWell k → IsWell (update k now).0
update-IsWell k now hn w =
    subst (λ (r : Ikcpcb × List (List ℕ)). IsWell r.0) (sym (update_lem k now))
      (if_cases (λ (r : Ikcpcb × List (List ℕ)). IsWell r.0)
        (is_neg (itimediff now (set_clock k now).ts_flush)) _ _ (λ _. v)
        (λ _. flush-IsWell (next_flush (set_clock k now)) (next_flush-IsWell (set_clock k now) v)))
  where
    v : IsWell (set_clock k now)
    v = reset_flush-IsWell (start_clock k now) now hn (start_clock-IsWell k now hn w)
