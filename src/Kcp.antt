-- ===== src/Kcp.antt =====
-- kcp.h and kcp.cpp. The wrapper of a control block: its attributes, the buffers that wait to be
-- sent, and the two routines that the manager's threads run. `ikcp_create` may fail, which is an
-- argument; `recvfrom` is the list of the datagrams that it returns until it fails, and `sendto` a
-- parameter. A socket address is a number. Where the code uses a null control block, or the engine
-- fails an assertion, an operation returns `none`; so does the call of an empty receiver.
pub mod Init
pub mod Output
pub mod Input
pub mod Event
mod Tests
use fiber_kcp.Prelude.{
  ℕ, zero, suc, ◌*◌, Bool, true, false, not, ◌&&◌, Option, none, some, ◌>>=◌, List, [], ◌∷◌, ◌++◌,
  length, take, drop, ltb, ◌==◌, if◌then◌else◌, ℤ, pos, negsuc, is_neg, is_pos,
}
use fiber_kcp.Wire.{getconv}
use fiber_kcp.Control.{Ikcpcb, create, wndsize, nodelay}
use fiber_kcp.Recv.{Received, peeksize, recv}
use fiber_kcp.Send.{send}
use fiber_kcp.Input.{input}
use fiber_kcp.Clock.{update, check}

pub record KcpAttr : Type 0 where
  pub fd : ℤ
  pub auto_close : Bool
  pub addr : ℕ
  pub conv : ℕ
  pub send_wnd_size : ℕ
  pub recv_wnd_size : ℕ
  pub nodelay_flag : ℕ
  pub interval : ℤ
  pub fast_resend : ℕ

-- kcp.h:32-38.
abbrev pub default_attr : KcpAttr
default_attr = record {
  fd = negsuc 0;
  auto_close = false;
  addr = 0;
  conv = 0;
  send_wnd_size = 512;
  recv_wnd_size = 512;
  nodelay_flag = 1;
  interval = pos 100;
  fast_resend = 2;
}

-- A buffer that was received, with the address it is handed over with.
abbrev pub Datagram : Type 0
Datagram = List ℕ × ℕ

-- `has_event` tells whether a receiver is installed.
pub record Kcp : Type 0 where
  pub handle : Option Ikcpcb
  pub bind_tid : ℕ
  pub attr : KcpAttr
  pub has_event : Bool
  pub send_buf_queue : List (List ℕ)

-- kcp.cpp:19-24.
pub new_kcp : Kcp
new_kcp = record {
  handle = none;
  bind_tid = 0;
  attr = default_attr;
  has_event = false;
  send_buf_queue = [];
}

-- kcp.cpp:87-88.
pub configure_block : KcpAttr → Ikcpcb → Ikcpcb
configure_block a k =
    let (k1, _) = wndsize k (pos a.send_wnd_size) (pos a.recv_wnd_size) in
    (nodelay k1 (pos a.nodelay_flag) a.interval (pos a.fast_resend) (pos 1)).0

-- kcp.cpp:79-90.
pub with_block : Kcp → Option Ikcpcb → Kcp × Bool
with_block c none = (record c { handle = none }, false)
with_block c (some k) = (record c { handle = some (configure_block c.attr k) }, true)

unfoldable pub init : Bool → Bool → Kcp → Kcp × Bool
init allocated buffer c = with_block c (create allocated buffer c.attr.conv)

-- kcp.cpp:26-34: `none` is the exception.
pub kcp_with : Bool → Bool → KcpAttr → Option Kcp
kcp_with allocated buffer a =
    let (c, ok) = init allocated buffer (record new_kcp { attr = a }) in if ok then some c else none

-- kcp.cpp:48-52, where an empty function may be installed too.
pub install_recv_event : Bool → Kcp → Kcp × Bool
install_recv_event callable c = (record c { has_event = callable }, true)

-- kcp.cpp:59-63.
unfoldable pub enqueue : List ℕ → Kcp → Kcp
enqueue buffer c = record c { send_buf_queue = c.send_buf_queue ++ (buffer ∷ []) }

-- kcp.cpp:65-72.
pub set_attr : Bool → Bool → KcpAttr → Kcp → Kcp × Bool
set_attr allocated buffer a c = elim c.handle [
  | some k ↦ (c, true)
  | none ↦ init allocated buffer (record c { attr = a })
]

-- kcp.cpp:74-77, at the time `now`.
pub check_kcp : ℕ → Kcp → Option ℕ
check_kcp now c = elim c.handle [ none ↦ none | some k ↦ some (check k now) ]

-- kcp.cpp:92-96.
pub bind_thread : ℕ → Kcp → Kcp × Bool
bind_thread me c = (record c { bind_tid = me }, true)

-- kcp.cpp:98-107.
pub kcp_output : (ℤ → List ℕ → ℕ → ℤ) → Kcp → List ℕ → ℤ
kcp_output sendto c bytes =
    if ltb 0 (length bytes) then sendto c.attr.fd bytes c.attr.addr else pos 0

abbrev pub buf_size : ℕ
buf_size = 2 * 1400

-- kcp.cpp:112.
pub zeros : ℕ → List ℕ
zeros zero = []
zeros (suc n) = 0 ∷ zeros n

-- kcp.cpp:117: the datagram, cut to the size of the buffer, stands over what the buffer held.
pub over : List ℕ → List ℕ → List ℕ
over bytes buf = take buf_size bytes ++ drop (length (take buf_size bytes)) buf

-- kcp.cpp:132-138; the result of `ikcp_input` is only logged.
pub read_into : KcpAttr → ℕ → Option (Ikcpcb × ℤ) → Option (KcpAttr × Ikcpcb)
read_into a from none = none
read_into a from (some (k, ret)) = some (record a { addr = from }, k)

-- kcp.cpp:127-138, for the conversation that the buffer names.
pub read_conv : KcpAttr → List ℕ → Datagram → Ikcpcb → Option ℕ → Option (KcpAttr × Ikcpcb)
read_conv a buf (bytes, from) k none = none
read_conv a buf (bytes, from) k (some conv) =
    if conv == a.conv
    then read_into a from (input k buf (pos (length (take buf_size bytes))))
    else some (a, k)

-- kcp.cpp:126-138.
pub read_one : KcpAttr → List ℕ → Datagram → Ikcpcb → Option (KcpAttr × Ikcpcb)
read_one a buf datagram k = read_conv a buf datagram k (getconv buf)

-- kcp.cpp:116-139: the attributes, the block and the address of the last datagram, `peer`.
pub read_all : KcpAttr → List ℕ → ℕ → List Datagram → Ikcpcb → Option (KcpAttr × ℕ × Ikcpcb)
read_all a buf peer [] k = some (a, peer, k)
read_all a buf peer ((bytes, from) ∷ rest) k = do
  let buf' = over bytes buf
  (a', k') ← read_one a buf' (bytes, from) k
  read_all a' buf' from rest k'

-- kcp.cpp:144-149; `recv` returns the bytes it copied. The call of an empty receiver is an exception.
pub hand_over : Bool → ℕ → Option Received → Option (Ikcpcb × List Datagram)
hand_over installed peer none = none
hand_over installed peer (some r) =
    if not (is_pos r.result)
    then some (r.block, [])
    else if installed
    then some (r.block, (r.out, peer) ∷ [])
    else none

-- kcp.cpp:141-150.
unfoldable pub deliver_one : Bool → ℕ → Ikcpcb → Option (Ikcpcb × List Datagram)
deliver_one installed peer k =
    if is_pos (peeksize k)
    then hand_over installed peer (recv k true (peeksize k))
    else some (k, [])

-- kcp.cpp:109-152, on the zeroed buffer; `stale` is what `peerAddr` holds before it is written.
pub input_block : ℕ → Kcp → List Datagram → Option Ikcpcb → Option (Kcp × List Datagram)
input_block stale c datagrams none = none
input_block stale c datagrams (some k) = do
  (a, peer, k1) ← read_all c.attr (zeros buf_size) stale datagrams k
  (k2, events) ← deliver_one c.has_event peer k1
  some (record c { attr = a; handle = some k2 }, events)

unfoldable pub input_routine : ℕ → Kcp → List Datagram → Option (Kcp × List Datagram)
input_routine stale c datagrams = input_block stale c datagrams c.handle

-- kcp.cpp:162-167: a message that is refused is dropped.
pub send_all : List (List ℕ) → Ikcpcb → Option Ikcpcb
send_all [] k = some k
send_all (b ∷ bs) k = do (k', ret) ← send k b (pos (length b)); send_all bs k'

-- kcp.cpp:154-170 at the time `now`, with the datagrams for `KcpOutput`.
pub output_block : ℕ → Kcp → Option Ikcpcb → Option (Kcp × List (List ℕ))
output_block now c none = none
output_block now c (some k) = do
  k1 ← send_all c.send_buf_queue k
  let (k2, sent) = update k1 now
  some (record c { handle = some k2; send_buf_queue = [] }, sent)

unfoldable pub output_routine : ℕ → Kcp → Option (Kcp × List (List ℕ))
output_routine now c = output_block now c c.handle
