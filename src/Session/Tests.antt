-- ===== src/Session/Tests.antt =====
-- A message sent, carried over and received.
use fiber_kcp.Prelude.{
  ℕ, zero, suc, ◌<◌, ◌≡◌, refl, arith, inl, inr, Option, none, some, List, [], ◌∷◌, pos, true,
  length,
}
use fiber_kcp.Control.{Ikcpcb, fresh}
use fiber_kcp.Send.{send}
use fiber_kcp.Recv.{recv, Received}
use fiber_kcp.Input.{input}
use fiber_kcp.Clock.{update}
use fiber_kcp.Session.{carry}
use fiber_kcp.Session.Reachable.{Reachable, created, then_step, updates, Reachable-IsWell}
use fiber_kcp.Ack.Safe.{IsWell}
use fiber_kcp.Session.Transfer.{send_receives}
use fiber_kcp.Word.{add32}
use fiber_kcp.Wire.{Segment}
use fiber_kcp.Send.{fragment}
use fiber_kcp.Recv.Order.{HasSn}
use fiber_kcp.Recv.Arrival.{IsReceiving}
use fiber_kcp.Recv.Progress.{arrive}

abbrev hello : List ℕ
hello = 104 ∷ 101 ∷ 108 ∷ 108 ∷ 111 ∷ []

heard : Option Received
unfolding fresh send update carry input recv
heard = elim (send (fresh 7) hello (pos 5)) [
  | none ↦ none
  | some (a, r) ↦
      let (a1, ds) = update a 1000 in
      let (a2, ds') = update a1 1100 in
      elim (carry (fresh 7) ds') [ none ↦ none | some b ↦ recv b true (pos 100) ]
]

-- Five bytes in segments of two: the three fragments, and how they arrive.
abbrev small : Ikcpcb
small = record (fresh 7) { mtu = 26; mss = 2 }

abbrev fragments : List Segment
unfolding fragment
fragments =
    fragment 2 2 (104 ∷ 101 ∷ []) ∷ fragment 1 2 (108 ∷ 108 ∷ []) ∷ fragment 0 1 (111 ∷ []) ∷ []

abbrev arrivals : List Segment
unfolding fragment
arrivals =
    record (fragment 0 1 (111 ∷ [])) { sn = 2 }
    ∷ record (fragment 2 2 (104 ∷ 101 ∷ [])) { sn = 0 }
    ∷ record (fragment 0 1 (111 ∷ [])) { sn = 2 }
    ∷ record (fragment 1 2 (108 ∷ 108 ∷ [])) { sn = 1 }
    ∷ []

three_there : (i : ℕ) → i < 3 → HasSn (add32 (fresh 7).rcv_nxt i) arrivals
unfolding fresh arrivals fragment
three_there zero h = inr (inl refl)
three_there (suc zero) h = inr (inr (inr (inl refl)))
three_there (suc (suc zero)) h = inl refl
three_there (suc (suc (suc i))) h = absurd (omega arith)

fresh-IsReceiving : IsReceiving (fresh 7)
unfolding fresh
fresh-IsReceiving = record {
  next = omega arith;
  window = omega arith;
  queued = refl;
  queue_small = omega arith;
  buffered = refl;
  ordered = tt;
}

send_receives_example :
    (got : Received) × (recv (arrive (fresh 7) arrivals) true (pos 64) ≡ some got)
    × (got.result ≡ pos (length hello))
    × (got.out ≡ hello)
unfolding fresh fragment fragments arrivals send
send_receives_example =
    send_receives small (fresh 7) hello fragments arrivals 64 refl (omega arith) (omega arith)
      (omega arith) (omega arith) refl fresh-IsReceiving refl refl (omega arith)
      (
        (omega arith, (refl, refl, refl)),
        (
          (omega arith, (refl, refl, refl)),
          ((omega arith, (refl, refl, refl)), ((omega arith, (refl, refl, refl)), tt)),
        ),
      )
      three_there (omega arith)

-- A message is queued and the clock runs twice, across its wrap.
started : Reachable 7 (update (update (fresh 7) 4294967290).0 90).0
started =
    then_step _ _ (then_step _ _ created (updates _ 4294967290 (omega arith)))
      (updates _ 90 (omega arith))

Reachable-IsWell_example : IsWell (update (update (fresh 7) 4294967290).0 90).0
Reachable-IsWell_example = Reachable-IsWell 7 (update (update (fresh 7) 4294967290).0 90).0 started
