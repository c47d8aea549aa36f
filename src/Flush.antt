-- ===== src/Flush.antt =====
-- ikcp.c:204-213, 919-1138. What is sent: acknowledgements, window probes and data, packed into
-- datagrams. The output callback is the list of the datagrams handed to it.
pub mod Out
pub mod Data
pub mod Window
pub mod Outcome
pub mod Safe
pub mod Timing
pub mod Stream
pub mod Datagrams
mod Tests
use Prim.Native.Nat.{bit_and, bit_or}
use fiber_kcp.Prelude.{
  ℕ, zero, suc, ◌+◌, ◌/◌, Bool, true, false, not, ◌&&◌, ◌||◌, List, [], ◌∷◌, ◌++◌, ltb, leb, ◌==◌,
  if◌then◌else◌, negsuc, is_neg, is_pos, leb_ℤ, take, length,
}
use fiber_kcp.Word.{
  add32, sub32, mul32, imin, imax, signed32, pattern32, gt_int, sdiv32, sar32, itimediff,
}
use fiber_kcp.Wire.{Segment, encode_seg}
use fiber_kcp.Control.{
  Ikcpcb, cmd_push, cmd_ack, cmd_wask, cmd_wins, overhead, ask_send, ask_tell, probe_init,
  probe_limit, thresh_min,
}
use fiber_kcp.Ack.{ack_get}
use fiber_kcp.Flush.Out.{Output, hand_out, make_room, write, put_header}
use fiber_kcp.Flush.Data.{
  Reason, first, timeout, skipped, idle, reason, backoff, retime, stamp, Round, put_data, note,
  flush_one, flush_data,
}

-- `ikcp_wnd_unused`.
pub wnd_unused : Ikcpcb → ℕ
wnd_unused k = if ltb k.nrcv_que k.rcv_wnd then sub32 k.rcv_wnd k.nrcv_que else 0

-- ikcp.c:947-954.
pub template : Ikcpcb → Segment
template k = record {
  conv = k.conv;
  cmd = cmd_ack;
  frg = 0;
  wnd = wnd_unused k;
  ts = 0;
  sn = 0;
  una = k.rcv_nxt;
  len = 0;
  resendts = 0;
  rto = 0;
  fastack = 0;
  xmit = 0;
  payload = [];
}

-- ikcp.c:958-966, by the number of acknowledgements left; the template keeps the last pair.
pub flush_acks : ℕ → ℕ → Ikcpcb → Segment → Output → Segment × Output
flush_acks zero i k seg o = (seg, o)
flush_acks (suc n) i k seg o =
    let (sn, ts) = ack_get k i in
    let seg' = record seg { sn = sn; ts = ts } in
    flush_acks n (i + 1) k seg' (put_header k.mtu seg' o)

-- ikcp.c:978-984.
next_probe : Ikcpcb → Ikcpcb
next_probe k =
    let low = if ltb k.probe_wait probe_init then probe_init else k.probe_wait in
    let grown = add32 low (low / 2) in
    let wait = if ltb probe_limit grown then probe_limit else grown in
    record k { probe_wait = wait; ts_probe = add32 k.current wait; probe = bit_or k.probe ask_send }

-- ikcp.c:971-990.
pub plan_probe : Ikcpcb → Ikcpcb
plan_probe k =
    if k.rmt_wnd == 0
    then if k.probe_wait == 0
      then record k { probe_wait = probe_init; ts_probe = add32 k.current probe_init }
      else if is_neg (itimediff k.current k.ts_probe)
      then k
      else next_probe k
    else record k { ts_probe = 0; probe_wait = 0 }

-- ikcp.c:993-1012.
pub flush_probe : Ikcpcb → ℕ → ℕ → Segment → Output → Output
flush_probe k ask cmd seg o =
    if bit_and k.probe ask == 0 then o else put_header k.mtu (record seg { cmd = cmd }) o

-- ikcp.c:1017-1018.
pub send_window : Ikcpcb → ℕ
send_window k =
    let cwnd = imin k.snd_wnd k.rmt_wnd in
    if pattern32 k.nocwnd == 0 then imin k.cwnd cwnd else cwnd

-- ikcp.c:1032-1041.
pub number : Ikcpcb → ℕ → Segment → Segment
number k wnd s = record s {
  conv = k.conv;
  cmd = cmd_push;
  wnd = wnd;
  ts = k.current;
  sn = k.snd_nxt;
  una = k.rcv_nxt;
  resendts = k.current;
  rto = k.rx_rto;
  fastack = 0;
  xmit = 0;
}

-- ikcp.c:1021-1042, over the segments of `snd_queue`.
pub fill_window : ℕ → ℕ → Ikcpcb → List Segment → Ikcpcb
fill_window cwnd wnd k [] = record k { snd_queue = [] }
fill_window cwnd wnd k (s ∷ q) =
    if is_neg (itimediff k.snd_nxt (add32 k.snd_una cwnd))
    then fill_window cwnd wnd
        (record k {
          snd_buf = k.snd_buf ++ (number k wnd s ∷ []);
          nsnd_que = sub32 k.nsnd_que 1;
          nsnd_buf = add32 k.nsnd_buf 1;
          snd_nxt = add32 k.snd_nxt 1;
        })
        q
    else record k { snd_queue = s ∷ q }

-- `kcp->ssthresh = w / 2`, not below the least threshold.
halve : ℕ → ℕ
halve w = if ltb (w / 2) thresh_min then thresh_min else w / 2

-- ikcp.c:1117-1124, with `change` segments that were skipped.
after_skips : ℕ → ℕ → Ikcpcb → Ikcpcb
after_skips resent change k =
    let inflight = sub32 k.snd_nxt k.snd_una in
    let cwnd = add32 (halve inflight) resent in
    if change == 0
    then k
    else record k { ssthresh = halve inflight; cwnd = cwnd; incr = mul32 cwnd k.mss }

-- ikcp.c:1126-1132.
after_loss : ℕ → Bool → Ikcpcb → Ikcpcb
after_loss cwnd lost k =
    if lost then record k { ssthresh = halve cwnd; cwnd = 1; incr = k.mss } else k

-- ikcp.c:1134-1137.
least_window : Ikcpcb → Ikcpcb
least_window k = if ltb k.cwnd 1 then record k { cwnd = 1; incr = k.mss } else k

-- ikcp.c:1117-1137.
pub adjust : ℕ → ℕ → ℕ → Bool → Ikcpcb → Ikcpcb
adjust cwnd resent change lost k = least_window (after_loss cwnd lost (after_skips resent change k))

-- ikcp.c:1045-1046.
pub resend_limit : Ikcpcb → ℕ
resend_limit k = if is_pos k.fastresend then pattern32 k.fastresend else 0xffff_ffff

pub least_rto : Ikcpcb → ℕ
least_rto k = if k.nodelay == 0 then sar32 k.rx_rto 3 else 0

-- ikcp.c:957-1014.
pub flush_control : Ikcpcb → Ikcpcb × Output
flush_control k =
    let empty : Output = record { held = []; sent = [] } in
    let (seg, o) = flush_acks k.ackcount 0 k (template k) empty in
    let k1 = plan_probe (record k { ackcount = 0 }) in
    let o1 = flush_probe k1 ask_send cmd_wask seg o in
    let o2 = flush_probe k1 ask_tell cmd_wins seg o1 in (record k1 { probe = 0 }, o2)

-- ikcp.c:1017-1137, behind the control segments.
pub flush_segments : Ikcpcb → Output → Ikcpcb × List (List ℕ)
flush_segments k o =
    let cwnd = send_window k in
    let k1 = fill_window cwnd (wnd_unused k) k k.snd_queue in
    let start : Round = record {
      xmit = k1.xmit;
      state = k1.state;
      lost = false;
      change = 0;
      out = o;
    } in
    let (buf, r) = flush_data k1 (wnd_unused k) (resend_limit k1) (least_rto k1) k1.snd_buf start in
    let k2 = record k1 { snd_buf = buf; xmit = r.xmit; state = r.state } in
    (adjust cwnd (resend_limit k1) r.change r.lost k2, (hand_out r.out).sent)

-- `ikcp_flush`: the new state and the datagrams that go out, in order.
unfoldable pub flush : Ikcpcb → Ikcpcb × List (List ℕ)
unfolding hand_out make_room write wnd_unused put_header next_probe plan_probe number reason backoff
    retime stamp put_data note flush_one halve after_skips after_loss least_window adjust template
    flush_acks flush_probe send_window fill_window resend_limit least_rto flush_data flush_control
    flush_segments
flush k =
    let (k1, o) = flush_control k in
    let done = flush_segments k1 o in if k.updated == 0 then (k, []) else done
