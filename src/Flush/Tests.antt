-- ===== src/Flush/Tests.antt =====
-- Runs of `ikcp_flush`.
use fiber_kcp.Prelude.{ℕ, ◌≤◌, ◌≡◌, ◌≢◌, ◌⊎◌, refl, arith, [], ◌∷◌, ◌++◌, All}
use fiber_kcp.Word.{sub32}
use fiber_kcp.Wire.{Segment}
use fiber_kcp.Control.{Ikcpcb, fresh}
use fiber_kcp.Flush.{flush, flush_control, send_window}
use fiber_kcp.Flush.Safe.{CanFlush, flush_window}
use fiber_kcp.Flush.Stream.{joined, control_bytes, window_bytes, flush_stream}
use fiber_kcp.Flush.Datagrams.{IsDatagram, flush_datagrams}

abbrev queued_byte : ℕ → Segment
queued_byte byte = record {
  conv = 0;
  cmd = 0;
  frg = 0;
  wnd = 0;
  ts = 0;
  sn = 0;
  una = 0;
  len = 1;
  resendts = 0;
  rto = 0;
  fastack = 0;
  xmit = 0;
  payload = byte ∷ [];
}

-- Three segments wait, and the window admits two.
abbrev waiting : Ikcpcb
waiting = record (fresh 7) {
  updated = 1;
  cwnd = 2;
  snd_nxt = 4294967295;
  snd_una = 4294967295;
  nsnd_que = 3;
  snd_queue = queued_byte 1 ∷ queued_byte 2 ∷ queued_byte 3 ∷ [];
}

waiting-CanFlush : CanFlush waiting
unfolding fresh
waiting-CanFlush = record {
  sending = record {
    una = omega arith;
    nxt = omega arith;
    span = omega arith;
    buffered = refl;
    ordered = tt;
    sent = tt;
  };
  send_wnd = omega arith;
  queue = omega arith;
}

is_running : waiting.updated ≢ 0
is_running e = omega (arith, e)

flush_window_example :
    (sub32 (flush waiting).0.snd_nxt (flush waiting).0.snd_una ≤ 0)
    ⊎ (sub32 (flush waiting).0.snd_nxt (flush waiting).0.snd_una ≤ send_window waiting)
flush_window_example = flush_window waiting waiting-CanFlush is_running

flush_datagrams_example : All (IsDatagram waiting.mtu) (flush waiting).1
unfolding fresh
flush_datagrams_example =
    flush_datagrams waiting (omega arith) (omega arith) tt
      (omega arith, (omega arith, (omega arith, tt)))

-- Two acknowledgements are pending.
abbrev acknowledging : Ikcpcb
acknowledging = record waiting { ackcount = 2; ackblock = 8; acklist = (5, 100) ∷ (6, 101) ∷ [] }

flush_stream_example :
    joined (flush acknowledging).1
    ≡ control_bytes acknowledging ++ window_bytes (flush_control acknowledging).0
flush_stream_example =
    flush_stream acknowledging (λ e. omega (arith, e))
      (record { written = omega arith; room = omega arith })
