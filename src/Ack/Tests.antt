-- ===== src/Ack/Tests.antt =====
-- Runs of the sender on acknowledgements.
use fiber_kcp.Prelude.{
  ℕ, ◌≤◌, ◌<◌, ◌≡◌, ◌⊎◌, refl, arith, min, [], ◌∷◌, ◌++◌, map, ltb, if◌then◌else◌,
}
use fiber_kcp.Word.{sub32}
use fiber_kcp.Wire.{Segment}
use fiber_kcp.Control.{Ikcpcb, fresh, rto_max}
use fiber_kcp.Ack.{parse_una, parse_ack, parse_fastack, shrink_buf, update_ack, ack_push}
use fiber_kcp.Ack.Order.{Leads, IsSending}
use fiber_kcp.Ack.Cumulative.{Acknowledged, parse_una_acknowledges}
use fiber_kcp.Ack.Selective.{Removed, parse_ack_acknowledges}
use fiber_kcp.Ack.Skips.{bump, parse_fastack_lem}
use fiber_kcp.Ack.Pending.{pending, IsPending, ack_push_appends}
use fiber_kcp.Ack.Estimate.{exact_srtt, exact_rttval, update_ack_lem}

abbrev sent_byte : ℕ → Segment
sent_byte sn = record {
  conv = 7;
  cmd = 81;
  frg = 0;
  wnd = 128;
  ts = 0;
  sn = sn;
  una = 0;
  len = 1;
  resendts = 300;
  rto = 200;
  fastack = 0;
  xmit = 1;
  payload = sn ∷ [];
}

-- Three segments are in flight, across the wrap of the numbers.
abbrev in_flight : Ikcpcb
in_flight = record (fresh 7) {
  snd_una = 4294967295;
  snd_nxt = 2;
  nsnd_buf = 3;
  snd_buf = sent_byte 4294967295 ∷ sent_byte 0 ∷ sent_byte 1 ∷ [];
}

in_flight-IsSending : IsSending in_flight
in_flight-IsSending = record {
  una = omega arith;
  nxt = omega arith;
  span = omega arith;
  buffered = refl;
  ordered = (
    omega arith,
    omega arith,
    omega arith,
    (omega arith, omega arith, omega arith, (omega arith, omega arith, omega arith, tt)),
  );
  sent = (omega arith, (omega arith, (omega arith, tt)));
}

parse_una_acknowledges_example :
    IsSending (shrink_buf (parse_una in_flight 1))
    × Acknowledged in_flight 1 (shrink_buf (parse_una in_flight 1))
    × (sub32 1 in_flight.snd_una
        ≤ sub32 (shrink_buf (parse_una in_flight 1)).snd_una in_flight.snd_una)
    × (sub32 (shrink_buf (parse_una in_flight 1)).snd_una in_flight.snd_una
        ≤ sub32 in_flight.snd_nxt in_flight.snd_una)
    × Leads
        (shrink_buf (parse_una in_flight 1)).snd_una
        in_flight.snd_nxt
        (shrink_buf (parse_una in_flight 1)).snd_buf
parse_una_acknowledges_example =
    parse_una_acknowledges in_flight 1 in_flight-IsSending (omega arith) (omega arith)

parse_ack_acknowledges_example :
    ((sub32 0 in_flight.snd_una < sub32 in_flight.snd_nxt in_flight.snd_una)
      × Removed 0 in_flight.nsnd_buf in_flight.snd_buf
          ((parse_ack in_flight 0).nsnd_buf, (parse_ack in_flight 0).snd_buf)
      × Leads
          (shrink_buf (parse_ack in_flight 0)).snd_una
          (shrink_buf (parse_ack in_flight 0)).snd_nxt
          (shrink_buf (parse_ack in_flight 0)).snd_buf
      × IsSending (shrink_buf (parse_ack in_flight 0)))
    ⊎ ((sub32 in_flight.snd_nxt in_flight.snd_una ≤ sub32 0 in_flight.snd_una)
        × (parse_ack in_flight 0 ≡ in_flight))
parse_ack_acknowledges_example =
    parse_ack_acknowledges in_flight 0 in_flight-IsSending (omega arith)

parse_fastack_lem_example : parse_fastack in_flight 1 ≡ (
    if ltb (sub32 1 in_flight.snd_una) (sub32 in_flight.snd_nxt in_flight.snd_una)
    then record in_flight { snd_buf = map (bump in_flight.snd_una 1) in_flight.snd_buf }
    else in_flight)
parse_fastack_lem_example = parse_fastack_lem in_flight 1 in_flight-IsSending (omega arith)

-- A round trip of 80 milliseconds was measured before.
abbrev measured : Ikcpcb
measured = record (fresh 7) { rx_srtt = 80; rx_rttval = 40 }

update_ack_lem_example :
    ((update_ack measured 120).rx_srtt ≡ exact_srtt 80 120)
    × ((update_ack measured 120).rx_rttval ≡ exact_rttval 40 80 120)
    × ((update_ack measured 120).rx_rto ≤ rto_max)
    × (min measured.rx_minrto rto_max ≤ (update_ack measured 120).rx_rto)
update_ack_lem_example =
    update_ack_lem measured 120 (λ e. omega (arith, e)) (omega arith) (omega arith)

-- The block of eight pairs is full.
abbrev full_block : Ikcpcb
full_block = record (fresh 7) {
  ackcount = 8;
  ackblock = 8;
  acklist = (0, 1) ∷ (1, 1) ∷ (2, 1) ∷ (3, 1) ∷ (4, 1) ∷ (5, 1) ∷ (6, 1) ∷ (7, 1) ∷ [];
}

ack_push_appends_example :
    (pending (ack_push full_block 9 2) ≡ pending full_block ++ ((9, 2) ∷ []))
    × IsPending (ack_push full_block 9 2)
ack_push_appends_example =
    ack_push_appends full_block 9 2 (record { written = omega arith; room = omega arith })
      (omega arith)
