-- ===== src/Control.antt =====
-- ikcp.c:25-46, 234-295, 1223-1288 and ikcp.h:287-319. The control block, its creation and its settings.
pub mod Settings
pub mod Safe
mod Tests
use fiber_kcp.Prelude.{
  ℕ, ◌+◌, ◌-◌, ◌≡◌, Bool, true, false, ◌&&◌, ◌||◌, Option, none, some, List, [], ltb, leb, ◌==◌,
  if◌then◌else◌, ℤ, pos, negsuc, ltb_ℤ, is_neg, is_pos,
}
use fiber_kcp.Word.{add32, sub32, mul32, imax, pattern32, signed32}
use fiber_kcp.Wire.{Segment}

abbrev pub rto_ndl : ℕ
rto_ndl = 30

abbrev pub rto_min : ℕ
rto_min = 100

abbrev pub rto_def : ℕ
rto_def = 200

abbrev pub rto_max : ℕ
rto_max = 60000

abbrev pub cmd_push : ℕ
cmd_push = 81

abbrev pub cmd_ack : ℕ
cmd_ack = 82

abbrev pub cmd_wask : ℕ
cmd_wask = 83

abbrev pub cmd_wins : ℕ
cmd_wins = 84

abbrev pub ask_send : ℕ
ask_send = 1

abbrev pub ask_tell : ℕ
ask_tell = 2

abbrev pub wnd_snd : ℕ
wnd_snd = 32

abbrev pub wnd_rcv : ℕ
wnd_rcv = 128

abbrev pub mtu_def : ℕ
mtu_def = 1400

abbrev pub default_interval : ℕ
default_interval = 100

abbrev pub overhead : ℕ
overhead = 24

abbrev pub deadlink : ℕ
deadlink = 20

abbrev pub thresh_init : ℕ
thresh_init = 2

abbrev pub thresh_min : ℕ
thresh_min = 2

abbrev pub probe_init : ℕ
probe_init = 7000

abbrev pub probe_limit : ℕ
probe_limit = 120000

abbrev pub fastack_limit : ℕ
fastack_limit = 5

-- `struct IKCPCB`. The queues hold their segments from `head.next` to `head.prev`; `acklist` holds
-- the pairs written so far, `ackblock` the room for pairs, and `room` the bytes behind `buffer`.
-- `rx_rttval`, `rx_srtt`, `rx_rto` and `rx_minrto` are bit patterns of an `int32_t`.
pub record Ikcpcb : Type 0 where
  pub conv : ℕ
  pub mtu : ℕ
  pub mss : ℕ
  pub state : ℕ
  pub snd_una : ℕ
  pub snd_nxt : ℕ
  pub rcv_nxt : ℕ
  pub ts_recent : ℕ
  pub ts_lastack : ℕ
  pub ssthresh : ℕ
  pub rx_rttval : ℕ
  pub rx_srtt : ℕ
  pub rx_rto : ℕ
  pub rx_minrto : ℕ
  pub snd_wnd : ℕ
  pub rcv_wnd : ℕ
  pub rmt_wnd : ℕ
  pub cwnd : ℕ
  pub probe : ℕ
  pub current : ℕ
  pub interval : ℕ
  pub ts_flush : ℕ
  pub xmit : ℕ
  pub nrcv_buf : ℕ
  pub nsnd_buf : ℕ
  pub nrcv_que : ℕ
  pub nsnd_que : ℕ
  pub nodelay : ℕ
  pub updated : ℕ
  pub ts_probe : ℕ
  pub probe_wait : ℕ
  pub dead_link : ℕ
  pub incr : ℕ
  pub snd_queue : List Segment
  pub rcv_queue : List Segment
  pub snd_buf : List Segment
  pub rcv_buf : List Segment
  pub acklist : List (ℕ × ℕ)
  pub ackcount : ℕ
  pub ackblock : ℕ
  pub room : ℕ
  pub fastresend : ℤ
  pub fastlimit : ℤ
  pub nocwnd : ℤ
  pub stream : ℤ

-- The size of the output buffer for an MTU, `(mtu + IKCP_OVERHEAD) * 3` in 32 bits.
abbrev pub buffer_size : ℕ → ℕ
buffer_size mtu = mul32 (add32 mtu overhead) 3

-- A control block as `ikcp_create` fills it in.
unfoldable pub fresh : ℕ → Ikcpcb
fresh conv = record {
  conv = conv;
  mtu = mtu_def;
  mss = sub32 mtu_def overhead;
  state = 0;
  snd_una = 0;
  snd_nxt = 0;
  rcv_nxt = 0;
  ts_recent = 0;
  ts_lastack = 0;
  ssthresh = thresh_init;
  rx_rttval = 0;
  rx_srtt = 0;
  rx_rto = rto_def;
  rx_minrto = rto_min;
  snd_wnd = wnd_snd;
  rcv_wnd = wnd_rcv;
  rmt_wnd = wnd_rcv;
  cwnd = 0;
  probe = 0;
  current = 0;
  interval = default_interval;
  ts_flush = default_interval;
  xmit = 0;
  nrcv_buf = 0;
  nsnd_buf = 0;
  nrcv_que = 0;
  nsnd_que = 0;
  nodelay = 0;
  updated = 0;
  ts_probe = 0;
  probe_wait = 0;
  dead_link = deadlink;
  incr = 0;
  snd_queue = [];
  rcv_queue = [];
  snd_buf = [];
  rcv_buf = [];
  acklist = [];
  ackcount = 0;
  ackblock = 0;
  room = buffer_size mtu_def;
  fastresend = pos 0;
  fastlimit = pos fastack_limit;
  nocwnd = pos 0;
  stream = pos 0;
}

-- `ikcp_create`; the first two arguments say whether its two allocations succeed.
unfoldable pub create : Bool → Bool → ℕ → Option Ikcpcb
create false buffer conv = none
create true false conv = none
create true true conv = some (fresh conv)

-- `ikcp_setmtu`, with the outcome of its allocation.
unfoldable pub setmtu : Bool → Ikcpcb → ℤ → Ikcpcb × ℤ
setmtu allocated k mtu =
    if ltb_ℤ mtu (pos 50) || ltb_ℤ mtu (pos overhead)
    then (k, negsuc 0)
    else if allocated
    then (
      record k {
        mtu = pattern32 mtu;
        mss = sub32 (pattern32 mtu) overhead;
        room = buffer_size (pattern32 mtu);
      },
      pos 0,
    )
    else (k, negsuc 1)

-- The clamp of `ikcp_interval` and `ikcp_nodelay`.
clamp_interval : ℤ → ℤ
clamp_interval i = if ltb_ℤ (pos 5000) i then pos 5000 else if ltb_ℤ i (pos 10) then pos 10 else i

-- `ikcp_interval`.
pub set_interval : Ikcpcb → ℤ → Ikcpcb × ℤ
unfolding clamp_interval
set_interval k i = (record k { interval = pattern32 (clamp_interval i) }, pos 0)

set_nodelay : Ikcpcb → ℤ → Ikcpcb
set_nodelay k v = if is_neg v then k else record k {
  nodelay = pattern32 v;
  rx_minrto = if pattern32 v == 0 then rto_min else rto_ndl;
}

-- `ikcp_nodelay`.
unfoldable pub nodelay : Ikcpcb → ℤ → ℤ → ℤ → ℤ → Ikcpcb × ℤ
unfolding set_nodelay clamp_interval
nodelay k n i resend nc =
    let k1 = set_nodelay k n in
    let k2 = record k1 {
      interval = if is_neg i then k1.interval else pattern32 (clamp_interval i);
    } in
    let k3 = record k2 { fastresend = if is_neg resend then k2.fastresend else resend } in
    (record k3 { nocwnd = if is_neg nc then k3.nocwnd else nc }, pos 0)

-- `ikcp_wndsize`.
unfoldable pub wndsize : Ikcpcb → ℤ → ℤ → Ikcpcb × ℤ
wndsize k sndwnd rcvwnd = (
  record k {
    snd_wnd = if is_pos sndwnd then pattern32 sndwnd else k.snd_wnd;
    rcv_wnd = if is_pos rcvwnd then imax (pattern32 rcvwnd) wnd_rcv else k.rcv_wnd;
  },
  pos 0,
)

-- `ikcp_waitsnd`.
unfoldable pub waitsnd : Ikcpcb → ℤ
waitsnd k = signed32 (add32 k.nsnd_buf k.nsnd_que)
