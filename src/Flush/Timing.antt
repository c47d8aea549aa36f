-- ===== src/Flush/Timing.antt =====
-- The clock fields of the control block behind `ikcp_flush`.
use fiber_kcp.Prelude.{
  ℕ, ◌≡◌, refl, ap, sym, ◌∙◌, subst, ◌==◌, List, [], ◌∷◌, ◌++◌, is_neg, if_cases,
}
use fiber_kcp.Word.{add32, sub32, itimediff}
use fiber_kcp.Wire.{Segment}
use fiber_kcp.Control.{Ikcpcb}
use fiber_kcp.Flush.{
  flush, flush_control, flush_segments, number, fill_window, send_window, wnd_unused, resend_limit,
}
use fiber_kcp.Flush.Out.{Output}
use fiber_kcp.Flush.Outcome.{flush_lem, control_sets, adjust_sets}

-- The fields of a control block that tell the time.
abbrev pub clock_of : Ikcpcb → ℕ × ℕ × ℕ × ℕ
clock_of k = (k.ts_flush, k.current, k.updated, k.interval)

fill_window-clock :
    (cwnd wnd : ℕ) (k : Ikcpcb) (q : List Segment)
    → clock_of (fill_window cwnd wnd k q) ≡ clock_of k
unfolding fill_window
fill_window-clock cwnd wnd k [] = refl
fill_window-clock cwnd wnd k (s ∷ q) =
    if_cases (λ x. clock_of x ≡ clock_of k) (is_neg (itimediff k.snd_nxt (add32 k.snd_una cwnd))) _
      _
      (λ _.
        fill_window-clock cwnd wnd
          (record k {
            snd_buf = k.snd_buf ++ (number k wnd s ∷ []);
            nsnd_que = sub32 k.nsnd_que 1;
            nsnd_buf = add32 k.nsnd_buf 1;
            snd_nxt = add32 k.snd_nxt 1;
          })
          q)
      (λ _. refl)

segments-clock : (k : Ikcpcb) (o : Output) → clock_of (flush_segments k o).0 ≡ clock_of k
unfolding flush_segments
segments-clock k o =
    let k1 = fill_window (send_window k) (wnd_unused k) k k.snd_queue in
    let (s, c, i, e) = adjust_sets (send_window k) (resend_limit k1) _ _ _ in
    ap clock_of e ∙ fill_window-clock (send_window k) (wnd_unused k) k k.snd_queue

pub flush-clock : (k : Ikcpcb) → clock_of (flush k).0 ≡ clock_of k
flush-clock k =
    subst (λ (r : Ikcpcb × List (List ℕ)). clock_of r.0 ≡ clock_of k) (sym (flush_lem k))
      (if_cases (λ (r : Ikcpcb × List (List ℕ)). clock_of r.0 ≡ clock_of k) (k.updated == 0) _ _
        (λ _. refl)
        (λ _.
          let (w, t, e) = control_sets k in
          segments-clock (flush_control k).0 (flush_control k).1 ∙ ap clock_of e))
