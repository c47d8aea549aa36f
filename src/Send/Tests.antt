-- ===== src/Send/Tests.antt =====
-- Runs of `ikcp_send`.
use fiber_kcp.Prelude.{ℕ, zero, suc, ◌≡◌, refl, arith, List, [], ◌∷◌, ◌++◌, pos, negsuc, some, take}
use fiber_kcp.Wire.{Segment}
use fiber_kcp.Control.{Ikcpcb, fresh}
use fiber_kcp.Recv.Message.{contents}
use fiber_kcp.Send.{send, fragment, fragment_count}
use fiber_kcp.Send.Whole.{Carries, queued, send_queues}
use fiber_kcp.Send.Stream.{Appended, send_appends}
use fiber_kcp.Send.Partial.{send_partial}

-- Segments hold four bytes.
abbrev small : Ikcpcb
small = record (fresh 7) { mtu = 28; mss = 4 }

abbrev ten_bytes : List ℕ
ten_bytes = 1 ∷ 2 ∷ 3 ∷ 4 ∷ 5 ∷ 6 ∷ 7 ∷ 8 ∷ 9 ∷ 10 ∷ []

send_queues_example :
    (frags : List Segment) × (send small ten_bytes (pos 10) ≡ some (queued small frags, pos 0))
    × Carries 4 ten_bytes frags
unfolding fresh fragment_count
send_queues_example =
    send_queues small ten_bytes refl (omega arith) (omega arith) (omega arith) (omega arith)

-- In stream mode, with three bytes waiting.
abbrev waiting : Ikcpcb
unfolding fragment
waiting = record (fresh 7) {
  mtu = 28;
  mss = 4;
  stream = pos 1;
  nsnd_que = 1;
  snd_queue = fragment 0 3 (1 ∷ 2 ∷ 3 ∷ []) ∷ [];
}

send_appends_example :
    (k' : Ikcpcb) × (send waiting ten_bytes (pos 10) ≡ some (k', pos 0))
    × Appended waiting ten_bytes k'
unfolding waiting fragment
send_appends_example =
    send_appends waiting ten_bytes (λ e. omega (arith, e)) (omega arith) (omega arith) (omega arith)
      (refl, tt) (omega arith, tt) (omega arith) (omega arith)

-- `n` bytes.
abbrev zeros : ℕ → List ℕ
zeros zero = []
zeros (suc n) = 0 ∷ zeros n

abbrev last_byte : Segment
last_byte = record {
  conv = 0;
  cmd = 0;
  frg = 0;
  wnd = 0;
  ts = 0;
  sn = 0;
  una = 0;
  len = 1;
  resendts = 0;
  rto = 0;
  fastack = 0;
  xmit = 0;
  payload = 1 ∷ [];
}

-- Segments hold two bytes, and one waits.
abbrev one_waits : Ikcpcb
one_waits = record (fresh 7) {
  mtu = 26;
  mss = 2;
  stream = pos 1;
  nsnd_que = 1;
  snd_queue = last_byte ∷ [];
}

send_partial_example :
    (k' : Ikcpcb) × (send one_waits (zeros 257) (pos 257) ≡ some (k', negsuc 1))
    × (contents k'.snd_queue ≡ contents one_waits.snd_queue ++ take 1 (zeros 257))
unfolding fragment_count
send_partial_example =
    send_partial one_waits (zeros 257) [] last_byte (λ e. omega (arith, e)) (omega arith) refl refl
      (omega arith) (omega arith) (omega arith)
