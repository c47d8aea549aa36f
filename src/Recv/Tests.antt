-- ===== src/Recv/Tests.antt =====
-- Runs of the receiving side.
use fiber_kcp.Prelude.{
  ℕ, zero, suc, ◌+◌, ◌<◌, ◌≡◌, refl, arith, List, [], ◌∷◌, inl, inr, pos, negsuc, some, true,
}
use fiber_kcp.Word.{add32}
use fiber_kcp.Wire.{Segment}
use fiber_kcp.Control.{Ikcpcb, fresh}
use fiber_kcp.Recv.{parse_data, recv, Received}
use fiber_kcp.Recv.Order.{HasSn}
use fiber_kcp.Recv.Arrival.{IsReceiving}
use fiber_kcp.Recv.Delivery.{Delivers, parse_data-Delivers}
use fiber_kcp.Recv.Progress.{arrive}
use fiber_kcp.Recv.Complete.{arrive_complete}
use fiber_kcp.Recv.History.{Grows, arrive_in_order}
use fiber_kcp.Recv.Receive.{recv_total, recv_message, Takes}

-- A segment of one byte.
abbrev pub one_byte : ℕ → ℕ → ℕ → Segment
one_byte sn frg byte = record {
  conv = 7;
  cmd = 81;
  frg = frg;
  wnd = 128;
  ts = 0;
  sn = sn;
  una = 0;
  len = 1;
  resendts = 0;
  rto = 0;
  fastack = 0;
  xmit = 0;
  payload = byte ∷ [];
}

-- The second segment comes first, and again at the end.
abbrev swapped : List Segment
swapped = one_byte 1 0 66 ∷ one_byte 0 1 65 ∷ one_byte 1 0 66 ∷ []

fresh-IsReceiving : IsReceiving (fresh 7)
unfolding fresh
fresh-IsReceiving = record {
  next = omega arith;
  window = omega arith;
  queued = refl;
  queue_small = omega arith;
  buffered = refl;
  ordered = tt;
}

arrive_in_order_example : Grows (λ s. s.len ≡ 1) (fresh 7) (arrive (fresh 7) swapped)
unfolding fresh
arrive_in_order_example =
    arrive_in_order (λ s. s.len ≡ 1) (fresh 7) swapped fresh-IsReceiving tt
      ((omega arith, refl), ((omega arith, refl), ((omega arith, refl), tt)))

both_there : (i : ℕ) → i < 2 → HasSn (add32 (fresh 7).rcv_nxt i) swapped
unfolding fresh
both_there zero h = inr (inl refl)
both_there (suc zero) h = inl refl
both_there (suc (suc i)) h = absurd (omega arith)

arrive_complete_example :
    ((arrive (fresh 7) swapped).rcv_nxt ≡ add32 (fresh 7).rcv_nxt 2)
    × ((arrive (fresh 7) swapped).nrcv_que ≡ (fresh 7).nrcv_que + 2)
    × ((arrive (fresh 7) swapped).rcv_buf ≡ [])
unfolding fresh
arrive_complete_example =
    arrive_complete (fresh 7) 2 swapped fresh-IsReceiving refl (omega arith) (omega arith)
      ((omega arith, omega arith), ((omega arith, omega arith), ((omega arith, omega arith), tt)))
      both_there

parse_data-Delivers_example :
    Delivers (fresh 7) (one_byte 0 0 66) (parse_data (fresh 7) (one_byte 0 0 66))
unfolding fresh
parse_data-Delivers_example =
    parse_data-Delivers (fresh 7) (one_byte 0 0 66) fresh-IsReceiving (omega arith) (omega arith)

-- A message of two fragments is queued.
abbrev two_fragments : List Segment
two_fragments = one_byte 0 1 65 ∷ one_byte 1 0 66 ∷ []

abbrev holding : Ikcpcb
holding = record (fresh 7) { rcv_queue = two_fragments; nrcv_que = 2; rcv_nxt = 2 }

holding-IsReceiving : IsReceiving holding
unfolding fresh
holding-IsReceiving = record {
  next = omega arith;
  window = omega arith;
  queued = refl;
  queue_small = omega arith;
  buffered = refl;
  ordered = tt;
}

recv_message_example :
    (got : Received) × (recv holding true (pos 10) ≡ some got) × Takes holding two_fragments [] got
recv_message_example =
    recv_message holding two_fragments [] holding-IsReceiving refl 10
      ((λ e. omega (arith, e)), refl) (refl, (refl, tt)) (omega arith) (omega arith) (omega arith)

recv_total_example : (r : Received) × (recv holding true (pos 1) ≡ some r)
recv_total_example = recv_total holding true (pos 1) (omega arith, (omega arith, tt))

-- The buffer of one byte is too small.
abbrev too_small : Received
too_small = record { block = holding; result = negsuc 2; out = [] }
