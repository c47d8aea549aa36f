-- ===== src/Kcp/Tests.antt =====
-- Runs of the wrapper, and the theorems about it at concrete attributes and buffers.
use fiber_kcp.Prelude.{ℕ, ◌≡◌, refl, true, some, List, [], ◌∷◌, arith, pos}
use fiber_kcp.Wire.{Segment}
use fiber_kcp.Send.{fragment}
use fiber_kcp.Control.{Ikcpcb, fresh}
use fiber_kcp.Ack.Safe.{IsWell}
use fiber_kcp.Session.Reachable.{fresh-IsWell}
use fiber_kcp.Clock.{update}
use fiber_kcp.Kcp.{
  KcpAttr, default_attr, Kcp, new_kcp, Datagram, output_routine, buf_size, zeros, read_all,
  kcp_output,
}
use fiber_kcp.Kcp.Output.{Sent, enqueue_all, output_routine_sends}
use fiber_kcp.Kcp.Input.{zeros-IsBuffer, read_all_total}

abbrev open_kcp : Kcp
open_kcp = record {
  handle = some (fresh 7);
  bind_tid = 1;
  attr = record default_attr { conv = 7 };
  has_event = true;
  send_buf_queue = (1 ∷ []) ∷ [];
}

output_routine_sends_example :
    (k : Ikcpcb) × Sent (fresh 7) ((1 ∷ []) ∷ (2 ∷ 3 ∷ []) ∷ []) k
    × (output_routine 5 (enqueue_all ((2 ∷ 3 ∷ []) ∷ []) open_kcp)
        ≡ some
            (record open_kcp { handle = some (update k 5).0; send_buf_queue = [] }, (update k 5).1))
unfolding fresh fiber_kcp.Send.fragment_count
output_routine_sends_example =
    output_routine_sends open_kcp (fresh 7) 5 ((2 ∷ 3 ∷ []) ∷ []) refl refl (omega arith)
      (omega arith) ((omega arith, omega arith), ((omega arith, omega arith), tt))

-- A datagram of three bytes, and an empty one.
read_all_total_example :
    (a : KcpAttr) × (peer : ℕ) × (k : Ikcpcb) × (read_all default_attr
        (zeros buf_size)
        0
        ((9 ∷ 8 ∷ 7 ∷ [], 5) ∷ ([], 6) ∷ [])
        (fresh 0)
      ≡ some (a, peer, k))
    × IsWell k
read_all_total_example =
    read_all_total default_attr (zeros buf_size) 0 ((9 ∷ 8 ∷ 7 ∷ [], 5) ∷ ([], 6) ∷ []) (fresh 0)
      (zeros-IsBuffer buf_size).0 (zeros-IsBuffer buf_size).1
      ((omega arith, (omega arith, (omega arith, tt))), (tt, tt)) (fresh-IsWell 0)

nothing_to_send : kcp_output (λ fd bytes addr. pos 3) new_kcp [] ≡ pos 0
unfolding kcp_output
nothing_to_send = refl

-- A message of two fragments of one byte is queued.
abbrev two_fragments : List Segment
two_fragments = fragment 1 1 (65 ∷ []) ∷ fragment 0 1 (66 ∷ []) ∷ []

abbrev waiting_kcp : Ikcpcb
waiting_kcp = record (fresh 7) { rcv_queue = two_fragments; nrcv_que = 2; rcv_nxt = 2 }

-- A datagram of another conversation.
abbrev strange : List Datagram
strange = (9 ∷ 8 ∷ 7 ∷ [], 5) ∷ []

abbrev ready_kcp : Kcp
ready_kcp = record open_kcp { handle = some waiting_kcp }
