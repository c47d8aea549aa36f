-- ===== src/Send.antt =====
-- ikcp.c:469-537. Cutting a message into segments. `malloc` is taken to succeed: where it fails the
-- assertion behind it ends the program.
pub mod Fragments
pub mod Whole
pub mod Stream
pub mod Partial
pub mod Safe
mod Tests
use fiber_kcp.Prelude.{
  ℕ, zero, suc, ◌+◌, ◌-◌, ◌/◌, Bool, true, false, Option, none, some, List, [], ◌∷◌, ◌++◌, ltb, leb,
  ◌==◌, if◌then◌else◌, ℤ, pos, negsuc, take, drop,
}
use fiber_kcp.Word.{add32, sub32, signed32, pattern32, gt_int}
use fiber_kcp.Wire.{Segment}
use fiber_kcp.Control.{Ikcpcb, wnd_rcv}

-- A segment as `ikcp_send` leaves it. The fields at zero are those that `malloc` leaves open; each
-- is written by `ikcp_flush` before it is read.
unfoldable pub fragment : ℕ → ℕ → List ℕ → Segment
fragment frg size bytes = record {
  conv = 0;
  cmd = 0;
  frg = frg;
  wnd = 0;
  ts = 0;
  sn = 0;
  una = 0;
  len = size;
  resendts = 0;
  rto = 0;
  fastack = 0;
  xmit = 0;
  payload = bytes;
}

-- ikcp.c:480-500 for the last segment `old`: what it becomes, and the bytes that are left to send.
abbrev pub Extended : Type 0
Extended = List Segment × List ℕ × ℕ

pub extend : ℕ → List ℕ → ℕ → Segment → Extended
extend mss buffer len old =
    if ltb old.len mss
    then (let size = if ltb len (mss - old.len) then len else mss - old.len in
        (
          fragment 0 (old.len + size) (take old.len old.payload ++ take size buffer) ∷ [],
          drop size buffer,
          len - size,
        ))
    else (old ∷ [], buffer, len)

pub extend_last : ℕ → List ℕ → ℕ → List Segment → Extended
extend_last mss buffer len [] = ([], buffer, len)
extend_last mss buffer len (s ∷ []) = extend mss buffer len s
extend_last mss buffer len (s ∷ t ∷ q) =
    let (q', buffer', len') = extend_last mss buffer len (t ∷ q) in (s ∷ q', buffer', len')

-- ikcp.c:507-512, the number of segments.
unfoldable pub fragment_count : ℕ → ℕ → ℕ
fragment_count mss len =
    let count = if gt_int len mss then sub32 (add32 len mss) 1 / mss else 1 in
    if count == 0 then 1 else count

-- ikcp.c:516.
pub piece_size : ℕ → ℕ → ℕ
piece_size mss len = if gt_int len mss then mss else len

-- ikcp.c:515-534, by the number of segments that are left.
pub cut : ℕ → Bool → ℕ → List ℕ → ℕ → List Segment
cut zero stream mss buffer len = []
cut (suc c) stream mss buffer len =
    let size = piece_size mss len in
    fragment (if stream then 0 else c) size (take size buffer)
    ∷ cut c stream mss (drop size buffer) (len - size)

-- ikcp.c:507-536.
pub send_cut : Ikcpcb → Bool → List ℕ → ℕ → Ikcpcb × ℤ
send_cut k stream buffer len =
    let count = fragment_count k.mss len in
    if leb wnd_rcv count then (k, negsuc 1) else (
      record k {
        snd_queue = k.snd_queue ++ cut count stream k.mss buffer len;
        nsnd_que = add32 k.nsnd_que count;
      },
      pos 0,
    )

-- ikcp.c:478-505.
pub send_stream : Ikcpcb → List ℕ → ℕ → Ikcpcb × ℤ
send_stream k buffer len =
    let (q, buffer', len') = extend_last k.mss buffer len k.snd_queue in
    let k' = record k { snd_queue = q } in
    if len' == 0 then (k', pos 0) else send_cut k' true buffer' len'

pub send_bytes : Ikcpcb → List ℕ → ℤ → Ikcpcb × ℤ
send_bytes k buffer (negsuc n) = (k, negsuc 0)
send_bytes k buffer (pos len) =
    if pattern32 k.stream == 0 then send_cut k false buffer len else send_stream k buffer len

-- `ikcp_send`; `none` is the failed assertion that the segment size is positive.
unfoldable pub send : Ikcpcb → List ℕ → ℤ → Option (Ikcpcb × ℤ)
unfolding send_bytes send_cut send_stream extend extend_last fragment_count cut piece_size fragment
send k buffer len = if k.mss == 0 then none else some (send_bytes k buffer len)
