-- ===== src/Control/Safe.antt =====
-- The invariant of a control block behind the settings, ikcp.c:1223-1283.
use fiber_kcp.Prelude.{arith, Bool, if_cases, ◌||◌, ltb_ℤ, ℤ, pos, is_neg, ◌≤ℤ◌}
use fiber_kcp.Control.{Ikcpcb, wndsize, set_interval, set_nodelay, nodelay, setmtu, overhead}
use fiber_kcp.Ack.Safe.{IsWell}

pub wndsize-IsWell :
    (k : Ikcpcb) (sndwnd rcvwnd : ℤ)
    → sndwnd ≤ℤ pos 2147483647
    → rcvwnd ≤ℤ pos 2147483647
    → IsWell k
    → IsWell (wndsize k sndwnd rcvwnd).0
unfolding wndsize
wndsize-IsWell k sndwnd rcvwnd hs hr w = record {
  sending = w.sending;
  run = w.run;
  queue = w.queue;
  flush_time = w.flush_time;
  send_wnd = ground (arith, w.send_wnd);
  receiving = record {
    next = w.receiving.next;
    window = ground (arith, w.receiving.window);
    queued = w.receiving.queued;
    queue_small = w.receiving.queue_small;
    buffered = w.receiving.buffered;
    ordered = w.receiving.ordered;
  };
}

pub set_interval-IsWell :
    (k : Ikcpcb) (interval : ℤ) → IsWell k → IsWell (set_interval k interval).0
unfolding set_interval
set_interval-IsWell k interval w = record {
  sending = w.sending;
  receiving = w.receiving;
  run = w.run;
  queue = w.queue;
  send_wnd = w.send_wnd;
  flush_time = w.flush_time;
}

set_nodelay-IsWell : (k : Ikcpcb) (mode : ℤ) → IsWell k → IsWell (set_nodelay k mode)
unfolding set_nodelay
set_nodelay-IsWell k mode w =
    if_cases IsWell (is_neg mode) _ _ (λ _. w)
      (λ _. record {
        sending = w.sending;
        receiving = w.receiving;
        run = w.run;
        queue = w.queue;
        send_wnd = w.send_wnd;
        flush_time = w.flush_time;
      })

pub nodelay-IsWell :
    (k : Ikcpcb) (mode interval resend nc : ℤ)
    → IsWell k
    → IsWell (nodelay k mode interval resend nc).0
unfolding nodelay
nodelay-IsWell k mode interval resend nc w =
    let v = set_nodelay-IsWell k mode w in
    record {
      sending = v.sending;
      receiving = v.receiving;
      run = v.run;
      queue = v.queue;
      send_wnd = v.send_wnd;
      flush_time = v.flush_time;
    }

pub setmtu-IsWell :
    (allocated : Bool) (k : Ikcpcb) (mtu : ℤ) → IsWell k → IsWell (setmtu allocated k mtu).0
unfolding setmtu
setmtu-IsWell allocated k mtu w =
    if_cases (λ (r : Ikcpcb × ℤ). IsWell r.0) (ltb_ℤ mtu (pos 50) || ltb_ℤ mtu (pos overhead)) _ _
      (λ _. w)
      (λ _.
        if_cases (λ (r : Ikcpcb × ℤ). IsWell r.0) allocated _ _
          (λ _. record {
            sending = w.sending;
            receiving = w.receiving;
            run = w.run;
            queue = w.queue;
            send_wnd = w.send_wnd;
            flush_time = w.flush_time;
          })
          (λ _. w))
