-- ===== src/Flush/Data.antt =====
-- ikcp.c:1048-1108: the segments of the window, which are timed and sent in a round.
use fiber_kcp.Prelude.{
  ℕ, ◌+◌, Bool, true, not, ◌&&◌, ◌||◌, List, [], ◌∷◌, ◌++◌, ltb, leb, ◌==◌, if◌then◌else◌, negsuc,
  is_neg, is_pos, leb_ℤ, take,
}
use fiber_kcp.Word.{add32, imax, signed32, pattern32, sdiv32, itimediff}
use fiber_kcp.Wire.{Segment, encode_seg}
use fiber_kcp.Control.{Ikcpcb, overhead}
use fiber_kcp.Flush.Out.{Output, make_room, write}

-- Why a segment is sent in this round, if it is.
pub data Reason : Type 0 where
  first timeout skipped idle : Reason

-- ikcp.c:1052-1074.
unfoldable pub reason : Ikcpcb → ℕ → Segment → Reason
reason k resent s =
    if s.xmit == 0
    then first
    else if not (is_neg (itimediff k.current s.resendts))
    then timeout
    else if leb resent s.fastack
        && (leb_ℤ (signed32 s.xmit) k.fastlimit || not (is_pos k.fastlimit))
    then skipped
    else idle

-- ikcp.c:1062-1068.
unfoldable pub backoff : Ikcpcb → ℕ → ℕ
backoff k rto =
    if k.nodelay == 0
    then add32 rto (imax rto k.rx_rto)
    else add32 rto (sdiv32 (if ltb k.nodelay 2 then rto else k.rx_rto) 2)

-- ikcp.c:1053-1081, and 1085-1087 for a segment that is sent.
unfoldable pub retime : Ikcpcb → ℕ → Reason → Segment → Segment
retime k rtomin first s = record s {
  xmit = add32 s.xmit 1;
  rto = k.rx_rto;
  resendts = add32 (add32 k.current k.rx_rto) rtomin;
}
retime k rtomin timeout s = record s {
  xmit = add32 s.xmit 1;
  rto = backoff k s.rto;
  resendts = add32 k.current (backoff k s.rto);
}
retime k rtomin skipped s = record s {
  xmit = add32 s.xmit 1;
  fastack = 0;
  resendts = add32 k.current s.rto;
}
retime k rtomin idle s = s

unfoldable pub stamp : Ikcpcb → ℕ → Segment → Segment
stamp k wnd s = record s { ts = k.current; wnd = wnd; una = k.rcv_nxt }

-- The locals and counters that the loop over `snd_buf` carries.
pub record Round : Type 0 where
  pub xmit : ℕ
  pub state : ℕ
  pub lost : Bool
  pub change : ℕ
  pub out : Output

-- ikcp.c:1089-1106.
unfoldable pub put_data : Ikcpcb → Segment → Round → Round
put_data k s r = record r {
  out = write (encode_seg s ++ take s.len s.payload) (make_room k.mtu (add32 overhead s.len) r.out);
  state = if leb k.dead_link s.xmit then pattern32 (negsuc 0) else r.state;
}

unfoldable pub note : Reason → Round → Round
note first r = r
note timeout r = record r { xmit = add32 r.xmit 1; lost = true }
note skipped r = record r { change = r.change + 1 }
note idle r = r

-- One turn of ikcp.c:1049-1108.
unfoldable pub flush_one : Ikcpcb → ℕ → ℕ → ℕ → Reason → Segment → Round → Segment × Round
flush_one k wnd resent rtomin idle s r = (s, r)
flush_one k wnd resent rtomin why s r =
    let s' = stamp k wnd (retime k rtomin why s) in (s', put_data k s' (note why r))

unfoldable pub flush_data : Ikcpcb → ℕ → ℕ → ℕ → List Segment → Round → List Segment × Round
flush_data k wnd resent rtomin [] r = ([], r)
flush_data k wnd resent rtomin (s ∷ buf) r =
    let (s', r') = flush_one k wnd resent rtomin (reason k resent s) s r in
    let (buf', r'') = flush_data k wnd resent rtomin buf r' in (s' ∷ buf', r'')
