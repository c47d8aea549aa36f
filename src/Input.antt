-- ===== src/Input.antt =====
-- ikcp.c:749-900. A datagram from the network. The allocation of a segment is taken to succeed. A
-- header is read as a whole before its conversation number is compared.
pub mod Total
pub mod Well
mod Tests
use Prim.Native.Nat.{bit_or}
use fiber_kcp.Prelude.{
  ℕ, zero, suc, ◌-◌, ◌/◌, Bool, true, false, not, ◌&&◌, ◌||◌, Option, none, some, List, [], ◌∷◌,
  ltb, leb, ◌==◌, if◌then◌else◌, ℤ, pos, negsuc, is_neg, is_pos, ltb_ℤ, take, drop, length,
}
use fiber_kcp.Word.{add32, sub32, mul32, signed32, pattern32, itimediff}
use fiber_kcp.Wire.{Segment, Header, decode_header}
use fiber_kcp.Control.{Ikcpcb, cmd_push, cmd_ack, cmd_wask, cmd_wins, overhead, ask_tell}
use fiber_kcp.Ack.{update_ack, shrink_buf, parse_ack, parse_una, parse_fastack, ack_push}
use fiber_kcp.Recv.{parse_data}

-- ikcp.c:793-797.
unfoldable pub on_ack : Ikcpcb → Header → Ikcpcb
on_ack k h =
    let k1 = if is_neg (itimediff k.current h.ts) then k else update_ack k (sub32 k.current h.ts) in
    shrink_buf (parse_ack k1 h.sn)

-- ikcp.c:798-814: the highest number acknowledged so far, if any.
pub mark_ack : Option ℕ → ℕ → Option ℕ
mark_ack none sn = some sn
mark_ack (some maxack) sn = if is_pos (itimediff sn maxack) then some sn else some maxack

-- The segment of ikcp.c:830-842; the fields at zero are left open by `malloc` and not read.
unfoldable pub arrived : Header → List ℕ → Segment
arrived h bytes = record {
  conv = h.conv;
  cmd = h.cmd;
  frg = h.frg;
  wnd = h.wnd;
  ts = h.ts;
  sn = h.sn;
  una = h.una;
  len = h.len;
  resendts = 0;
  rto = 0;
  fastack = 0;
  xmit = 0;
  payload = take h.len bytes;
}

-- ikcp.c:827-846.
unfoldable pub on_push : Ikcpcb → Header → List ℕ → Ikcpcb
on_push k h bytes =
    let k1 = ack_push k h.sn h.ts in
    if is_neg (itimediff h.sn (add32 k.rcv_nxt k.rcv_wnd))
    then (if is_neg (itimediff h.sn k.rcv_nxt) then k1 else parse_data k1 (arrived h bytes))
    else k

pub is_command : ℕ → Bool
is_command cmd = cmd == cmd_push || cmd == cmd_ack || cmd == cmd_wask || cmd == cmd_wins

-- ikcp.c:788-865 for a known command.
unfoldable pub on_segment : Ikcpcb → Header → List ℕ → Ikcpcb
on_segment k h bytes =
    let k1 = shrink_buf (parse_una (record k { rmt_wnd = h.wnd }) h.una) in
    if h.cmd == cmd_ack
    then on_ack k1 h
    else if h.cmd == cmd_push
    then on_push k1 h bytes
    else if h.cmd == cmd_wask
    then record k1 { probe = bit_or k1.probe ask_tell }
    else k1

-- How the loop over the segments of a datagram ends.
pub data Ending : Type 0 where
  stopped : Ikcpcb → ℤ → Ending
  finished : Ikcpcb → Option ℕ → Ending

-- ikcp.c:761-869. `none` is a read past the end of the datagram.
pub input_loop : ℕ → Ikcpcb → List ℕ → ℕ → Option ℕ → Option Ending
unfolding is_command mark_ack
input_loop zero k bytes size mark = none
input_loop (suc fuel) k bytes size mark =
    if ltb size overhead then some (finished k mark) else elim (decode_header bytes) [
      | none ↦ none
      | some (h, rest) ↦
          let next =
            input_loop fuel (on_segment k h rest) (drop h.len rest) (size - overhead - h.len)
              (if h.cmd == cmd_ack then mark_ack mark h.sn else mark) in
          if not (h.conv == k.conv)
          then some (stopped k (negsuc 0))
          else if ltb (size - overhead) h.len || is_neg (signed32 h.len)
          then some (stopped k (negsuc 1))
          else if not (is_command h.cmd)
          then some (stopped k (negsuc 2))
          else if ltb (length rest) h.len
          then none
          else next
    ]

-- ikcp.c:878-891.
pub widen : Ikcpcb → Ikcpcb
widen k =
    let mss = k.mss in
    if ltb k.cwnd k.ssthresh
    then record k { cwnd = add32 k.cwnd 1; incr = add32 k.incr mss }
    else (let base = if ltb k.incr mss then mss else k.incr in
        let incr = add32 base (add32 (mul32 mss mss / base) (mss / 16)) in
        record k {
          incr = incr;
          cwnd =
              if leb (mul32 (add32 k.cwnd 1) mss) incr
              then sub32 (add32 incr mss) 1 / (if ltb 0 mss then mss else 1)
              else k.cwnd;
        })

-- ikcp.c:892-895.
pub cap_window : Ikcpcb → Ikcpcb
cap_window k =
    if ltb k.rmt_wnd k.cwnd then record k { cwnd = k.rmt_wnd; incr = mul32 k.rmt_wnd k.mss } else k

-- ikcp.c:875-897.
pub grow_window : ℕ → Ikcpcb → Ikcpcb
unfolding widen cap_window
grow_window prev_una k =
    if is_pos (itimediff k.snd_una prev_una) && ltb k.cwnd k.rmt_wnd
    then cap_window (widen k)
    else k

pub skipped : Ikcpcb → Option ℕ → Ikcpcb
skipped k none = k
skipped k (some maxack) = parse_fastack k maxack

pub finish : ℕ → Ending → Ikcpcb × ℤ
unfolding grow_window skipped
finish prev_una (stopped k e) = (k, e)
finish prev_una (finished k mark) = (grow_window prev_una (skipped k mark), pos 0)

-- `long` sizes below zero end the loop at once, as zero does.
abbrev pub natural : ℤ → ℕ
natural (pos n) = n
natural (negsuc n) = 0

pub after_loop : Ikcpcb → Option Ending → Option (Ikcpcb × ℤ)
after_loop k none = none
after_loop k (some e) = some (finish k.snd_una e)

-- ikcp.c:759, on `(int)size`.
pub too_short : ℤ → Bool
too_short size = ltb_ℤ (signed32 (pattern32 size)) (pos overhead)

-- `ikcp_input`, for `data` that is not null; each turn takes at least a header.
unfoldable pub input : Ikcpcb → List ℕ → ℤ → Option (Ikcpcb × ℤ)
unfolding input_loop finish after_loop too_short
input k bytes size =
    if too_short size
    then some (k, negsuc 0)
    else after_loop k (input_loop (suc (natural size)) k bytes (natural size) none)
