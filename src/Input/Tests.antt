-- ===== src/Input/Tests.antt =====
-- Runs of `ikcp_input`.
use fiber_kcp.Prelude.{ℕ, ◌≡◌, refl, arith, List, [], ◌∷◌, All, ℤ, pos, some}
use fiber_kcp.Control.{Ikcpcb, fresh}
use fiber_kcp.Ack.Safe.{IsWell}
use fiber_kcp.Input.{input}
use fiber_kcp.Input.Well.{IsByte, input-IsWell}

-- A data segment of one byte with the number 1, behind a gap, as it is on the wire.
abbrev datagram : List ℕ
datagram =
    7 ∷ 0 ∷ 0 ∷ 0 ∷ 81 ∷ 0 ∷ 128 ∷ 0 ∷ 232 ∷ 3 ∷ 0 ∷ 0 ∷ 1 ∷ 0 ∷ 0 ∷ 0 ∷ 0 ∷ 0 ∷ 0 ∷ 0 ∷ 1 ∷ 0 ∷ 0
    ∷ 0 ∷ 65 ∷ []

fresh-IsWell : IsWell (fresh 7)
unfolding fresh
fresh-IsWell = record {
  sending = record {
    una = omega arith;
    nxt = omega arith;
    span = omega arith;
    buffered = refl;
    ordered = tt;
    sent = tt;
  };
  receiving = record {
    next = omega arith;
    window = omega arith;
    queued = refl;
    queue_small = omega arith;
    buffered = refl;
    ordered = tt;
  };
  run = tt;
  queue = omega arith;
  send_wnd = omega arith;
  flush_time = omega arith;
}

datagram-IsByte : All IsByte datagram
datagram-IsByte = grind arith

input-IsWell_example : (r : Ikcpcb × ℤ) × (input (fresh 7) datagram (pos 25) ≡ some r) × IsWell r.0
input-IsWell_example = input-IsWell (fresh 7) datagram 25 fresh-IsWell datagram-IsByte (omega arith)
