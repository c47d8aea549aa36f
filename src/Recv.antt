-- ===== src/Recv.antt =====
-- ikcp.c:358-463 and 683-743. The receiving side: segments arrive in `rcv_buf` in any order, pass to
-- `rcv_queue` in the order of their numbers, and leave it as whole messages.
pub mod Order
pub mod Moves
pub mod Arrival
pub mod Delivery
pub mod Progress
pub mod Complete
pub mod History
pub mod Message
pub mod Receive
pub mod Safe
mod Tests
use fiber_kcp.Prelude.{
  ℕ, ◌+◌, ◌<◌, Bool, true, false, not, ◌&&◌, ◌||◌, Option, none, some, List, [], ◌∷◌, ◌++◌, ltb,
  leb, ◌==◌, if◌then◌else◌, ℤ, pos, negsuc, is_neg, is_pos, ltb_ℤ, neg_ℤ, take,
}
use fiber_kcp.Word.{add32, sub32, signed32, itimediff}
use fiber_kcp.Wire.{Segment}
use fiber_kcp.Control.{Ikcpcb, ask_tell}
use Prim.Native.Nat.{bit_or}

-- The loop that ikcp.c:414-425 and 721-732 share, over the segments of `rcv_buf`.
unfoldable pub move_ready : Ikcpcb → List Segment → Ikcpcb
move_ready k [] = record k { rcv_buf = [] }
move_ready k (s ∷ buf) =
    if s.sn == k.rcv_nxt && ltb k.nrcv_que k.rcv_wnd
    then move_ready
        (record k {
          nrcv_buf = sub32 k.nrcv_buf 1;
          rcv_queue = k.rcv_queue ++ (s ∷ []);
          nrcv_que = add32 k.nrcv_que 1;
          rcv_nxt = add32 k.rcv_nxt 1;
        })
        buf
    else record k { rcv_buf = s ∷ buf }

-- The walk of ikcp.c:695-705 from the tail of `rcv_buf`: a repeated number, the list with the new
-- segment behind the one that stopped the walk, or no stop so far.
pub data Walk : Type 0 where
  repeated : Walk
  placed : List Segment → Walk
  passed : Walk

unfoldable pub walk_back : Segment → List Segment → Walk
walk_back new [] = passed
walk_back new (s ∷ rest) = elim (walk_back new rest) [
  | repeated ↦ repeated
  | placed l ↦ placed (s ∷ l)
  | passed ↦
      if s.sn == new.sn
      then repeated
      else if is_pos (itimediff new.sn s.sn)
      then placed (s ∷ new ∷ rest)
      else passed
]

-- ikcp.c:707-713.
pub place : Ikcpcb → Segment → Walk → Ikcpcb
place k new repeated = k
place k new (placed l) = record k { rcv_buf = l; nrcv_buf = add32 k.nrcv_buf 1 }
place k new passed = record k { rcv_buf = new ∷ k.rcv_buf; nrcv_buf = add32 k.nrcv_buf 1 }

-- ikcp.c:689-690, the test for a segment that is dropped.
unfoldable pub out_of_window : Ikcpcb → ℕ → Bool
out_of_window k sn =
    not (is_neg (itimediff sn (add32 k.rcv_nxt k.rcv_wnd))) || is_neg (itimediff sn k.rcv_nxt)

-- `ikcp_parse_data`.
unfoldable pub parse_data : Ikcpcb → Segment → Ikcpcb
unfolding place
parse_data k new =
    let k' = place k new (walk_back new k.rcv_buf) in
    if out_of_window k new.sn then k else move_ready k' k'.rcv_buf

-- The loop of ikcp.c:456-460, a sum of `int`s.
peek_length : ℕ → List Segment → ℕ
peek_length length [] = length
peek_length length (s ∷ q) =
    if s.frg == 0 then add32 length s.len else peek_length (add32 length s.len) q

pub peek_queue : Ikcpcb → List Segment → ℤ
unfolding peek_length
peek_queue k [] = negsuc 0
peek_queue k (s ∷ q) =
    if s.frg == 0
    then signed32 s.len
    else if ltb k.nrcv_que (add32 s.frg 1)
    then negsuc 0
    else signed32 (peek_length 0 (s ∷ q))

-- `ikcp_peeksize`.
unfoldable pub peeksize : Ikcpcb → ℤ
unfolding peek_queue
peeksize k = peek_queue k k.rcv_queue

-- What the merging loop has copied, counted and left in the queue.
pub record Merged : Type 0 where
  pub out : List ℕ
  pub len : ℕ
  pub nrcv_que : ℕ
  pub rest : List Segment

-- ikcp.c:384-409. `buffer` says that there is one to copy to; a peek leaves the queue alone.
pub merge : Bool → Bool → List ℕ → ℕ → ℕ → List Segment → Merged
merge peek buffer out len nrcv_que [] = record {
  out = out;
  len = len;
  nrcv_que = nrcv_que;
  rest = [];
}
merge peek buffer out len nrcv_que (s ∷ q) =
    let out' = if buffer then out ++ take s.len s.payload else out in
    let len' = add32 len s.len in
    let nrcv_que' = if peek then nrcv_que else sub32 nrcv_que 1 in
    if s.frg == 0
    then record { out = out'; len = len'; nrcv_que = nrcv_que'; rest = q }
    else merge peek buffer out' len' nrcv_que' q

-- What a call of `ikcp_recv` returns: the new state, the result, and the bytes in the buffer.
pub record Received : Type 0 where
  pub block : Ikcpcb
  pub result : ℤ
  pub out : List ℕ

-- ikcp.c:428-432.
pub recover : Bool → Ikcpcb → Ikcpcb
recover full k =
    if ltb k.nrcv_que k.rcv_wnd && full then record k { probe = bit_or k.probe ask_tell } else k

-- ikcp.c:380-434. `none` is the failure of the assertion that the two lengths agree.
pub deliver : Ikcpcb → Bool → Bool → ℤ → Option Received
unfolding merge recover
deliver k peek buffer peeked =
    let m = merge peek buffer [] 0 k.nrcv_que k.rcv_queue in
    let k1 = record k { rcv_queue = if peek then k.rcv_queue else m.rest; nrcv_que = m.nrcv_que } in
    let k2 = recover (not (ltb k.nrcv_que k.rcv_wnd)) (move_ready k1 k1.rcv_buf) in
    if ltb_ℤ (signed32 m.len) peeked || ltb_ℤ peeked (signed32 m.len)
    then none
    else some (record { block = k2; result = signed32 m.len; out = m.out })

abbrev pub refuse : Ikcpcb → ℤ → Option Received
refuse k e = some (record { block = k; result = e; out = [] })

pub recv_from : Ikcpcb → Bool → ℤ → List Segment → Option Received
unfolding deliver
recv_from k buffer len [] = refuse k (negsuc 0)
recv_from k buffer len (s ∷ q) =
    if is_neg (peeksize k)
    then refuse k (negsuc 1)
    else if ltb_ℤ (if is_neg len then neg_ℤ len else len) (peeksize k)
    then refuse k (negsuc 2)
    else deliver k (is_neg len) buffer (peeksize k)

-- `ikcp_recv`: a negative length peeks.
unfoldable pub recv : Ikcpcb → Bool → ℤ → Option Received
unfolding recv_from
recv k buffer len = recv_from k buffer len k.rcv_queue
