-- ===== src/Session/Reachable.antt =====
-- The control blocks that calls of the interface lead to.
use fiber_kcp.Prelude.{
  ℕ, ◌≤◌, ◌<◌, ◌≡◌, refl, arith, sym, ◌∙◌, subst, some-injective, Bool, List, All, length, some, ℤ,
  pos, ◌≤ℤ◌,
}
use fiber_kcp.Word.{u32_mod}
use fiber_kcp.Control.{Ikcpcb, fresh, wndsize, set_interval, nodelay, setmtu}
use fiber_kcp.Control.Safe.{wndsize-IsWell, set_interval-IsWell, nodelay-IsWell, setmtu-IsWell}
use fiber_kcp.Ack.Safe.{IsWell}
use fiber_kcp.Recv.{recv, Received}
use fiber_kcp.Recv.Safe.{recv-IsWell}
use fiber_kcp.Send.{send}
use fiber_kcp.Send.Safe.{send-IsWell}
use fiber_kcp.Input.{input}
use fiber_kcp.Input.Well.{IsByte, input-IsWell}
use fiber_kcp.Flush.{flush}
use fiber_kcp.Flush.Safe.{flush-IsWell}
use fiber_kcp.Clock.{update}
use fiber_kcp.Clock.Safe.{update-IsWell}

-- One call of the interface by the program. The bytes of a datagram are bytes, its size is its own,
-- times are 32-bit numbers and window sizes are `int`s.
pub data Step : Ikcpcb → Ikcpcb → Type 0 where
  sends :
      (k : Ikcpcb) (buffer : List ℕ) (len : ℤ) (r : Ikcpcb × ℤ)
      → send k buffer len ≡ some r
      → Step k r.0
  receives :
      (k : Ikcpcb) (buffer : Bool) (len : ℤ) (r : Received)
      → recv k buffer len ≡ some r
      → Step k r.block
  gets :
      (k : Ikcpcb) (bytes : List ℕ) (size : ℕ) (r : Ikcpcb × ℤ)
      → All IsByte bytes
      → size ≤ length bytes
      → input k bytes (pos size) ≡ some r
      → Step k r.0
  updates : (k : Ikcpcb) (now : ℕ) → now < u32_mod → Step k (update k now).0
  flushes : (k : Ikcpcb) → Step k (flush k).0
  resizes :
      (k : Ikcpcb) (sndwnd rcvwnd : ℤ)
      → sndwnd ≤ℤ pos 2147483647
      → rcvwnd ≤ℤ pos 2147483647
      → Step k (wndsize k sndwnd rcvwnd).0
  paces : (k : Ikcpcb) (interval : ℤ) → Step k (set_interval k interval).0
  tunes : (k : Ikcpcb) (mode interval resend nc : ℤ) → Step k (nodelay k mode interval resend nc).0
  refits : (allocated : Bool) (k : Ikcpcb) (mtu : ℤ) → Step k (setmtu allocated k mtu).0

-- Any number of calls, from a control block that was just created.
pub data Reachable (conv : ℕ) : Ikcpcb → Type 0 where
  created : Reachable conv (fresh conv)
  then_step : (k k' : Ikcpcb) → Reachable conv k → Step k k' → Reachable conv k'

pub fresh-IsWell : (conv : ℕ) → IsWell (fresh conv)
unfolding fresh
fresh-IsWell conv = record {
  sending = record {
    una = omega arith;
    nxt = omega arith;
    span = omega arith;
    buffered = refl;
    ordered = tt;
    sent = tt;
  };
  receiving = record {
    next = omega arith;
    window = omega arith;
    queued = refl;
    queue_small = omega arith;
    buffered = refl;
    ordered = tt;
  };
  run = tt;
  queue = omega arith;
  send_wnd = omega arith;
  flush_time = omega arith;
}

Step-IsWell : (k k' : Ikcpcb) → IsWell k → Step k k' → IsWell k'
Step-IsWell k _ w (sends _ buffer len r e) = send-IsWell k buffer len r w e
Step-IsWell k _ w (receives _ buffer len r e) = recv-IsWell k buffer len r w e
Step-IsWell k _ w (gets _ bytes size r b l e) =
    let (r', e', v) = input-IsWell k bytes size w b l in
    subst (λ (x : Ikcpcb × ℤ). IsWell x.0) (some-injective r' r (sym e' ∙ e)) v
Step-IsWell k _ w (updates _ now h) = update-IsWell k now h w
Step-IsWell k _ w (flushes _) = flush-IsWell k w
Step-IsWell k _ w (resizes _ sndwnd rcvwnd hs hr) = wndsize-IsWell k sndwnd rcvwnd hs hr w
Step-IsWell k _ w (paces _ interval) = set_interval-IsWell k interval w
Step-IsWell k _ w (tunes _ mode interval resend nc) = nodelay-IsWell k mode interval resend nc w
Step-IsWell k _ w (refits allocated _ mtu) = setmtu-IsWell allocated k mtu w

-- Every control block that calls of the interface lead to from a new one, in any order and with
-- any data, is well formed: snd_buf and rcv_buf rise strictly by number from snd_una and rcv_nxt
-- on, rcv_queue holds the numbers that end before rcv_nxt without a gap, nsnd_buf, nrcv_buf and
-- nrcv_que are the lengths of their lists and nsnd_que that of the send queue in 32 bits, and the
-- numbers in flight stay within half the number space.
pub Reachable-IsWell : (conv : ℕ) (k : Ikcpcb) → Reachable conv k → IsWell k
Reachable-IsWell conv _ created = fresh-IsWell conv
Reachable-IsWell conv _ (then_step k k' r s) = Step-IsWell k k' (Reachable-IsWell conv k r) s
