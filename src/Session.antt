-- ===== src/Session.antt =====
-- Two endpoints talking to each other: runs of the whole protocol engine.
pub mod Transfer
pub mod Reachable
mod Tests
use fiber_kcp.Prelude.{ℕ, suc, ◌+◌, Option, none, some, List, [], ◌∷◌, ℤ, pos, negsuc, length}
use fiber_kcp.Control.{Ikcpcb, fresh}
use fiber_kcp.Send.{send}
use fiber_kcp.Recv.{recv, Received}
use fiber_kcp.Input.{input}
use fiber_kcp.Clock.{update}

-- Every datagram that one side hands out reaches the other, in order.
unfoldable pub carry : Ikcpcb → List (List ℕ) → Option Ikcpcb
carry k [] = some k
carry k (d ∷ ds) = elim (input k d (pos (length d))) [ none ↦ none | some (k', r) ↦ carry k' ds ]
