-- ===== src/Ack/Estimate.antt =====
-- The round trip estimate and the retransmission timeout.
use fiber_kcp.Prelude.{
  ℕ, ◌+◌, ◌-◌, ◌*◌, ◌/◌, ◌^◌, ◌≤◌, ◌<◌, ◌≡◌, ◌≢◌, refl, arith, min, is_pos, if◌then◌else◌, ◌==◌,
  false, pos, ◌+ℤ◌, tdiv, ap, ◌∙◌, subst,
}
use fiber_kcp.Word.{add32, mul32, imax, ibound, sdiv32, signed32, pattern32}
use fiber_kcp.Control.{Ikcpcb, rto_max}
use fiber_kcp.Ack.{update_ack, smooth, distance}
use Prim.Native.Nat.{max}

ibound_bounds :
    (lower middle upper : ℕ)
    → (ibound lower middle upper ≤ upper) × (min lower upper ≤ ibound lower middle upper)
ibound_bounds lower middle upper = (ground arith, ground arith)

-- The estimates that exact arithmetic gives.
abbrev pub exact_srtt : ℕ → ℕ → ℕ
exact_srtt srtt rtt = max 1 ((7 * srtt + rtt) / 8)

abbrev pub exact_rttval : ℕ → ℕ → ℕ → ℕ
exact_rttval rttval srtt rtt = (3 * rttval + ((rtt - srtt) + (srtt - rtt))) / 4

distance_lem :
    (rtt srtt : ℕ) → rtt < 2 ^ 31 → srtt < 2 ^ 31 → distance rtt srtt ≡ (rtt - srtt) + (srtt - rtt)
unfolding distance
distance_lem rtt srtt h k = ground arith

srtt_lem :
    (srtt rtt : ℕ)
    → 7 * srtt + rtt < 2 ^ 31
    → (let s = sdiv32 (add32 (mul32 7 srtt) rtt) 8 in if is_pos (signed32 s) then s else 1)
      ≡ exact_srtt srtt rtt
srtt_lem srtt rtt h = ground arith

rttval_lem :
    (rttval d : ℕ)
    → 3 * rttval + d < 2 ^ 31
    → pattern32 (tdiv (signed32 (mul32 3 rttval) +ℤ pos d) 4) ≡ (3 * rttval + d) / 4
rttval_lem rttval d h = ground arith

not_first : (n : ℕ) → n ≢ 0 → (n == 0) ≡ false
not_first n ne = ground arith

smooth_lem :
    (k : Ikcpcb) (rtt : ℕ)
    → k.rx_srtt ≢ 0
    → 7 * k.rx_srtt + rtt < 2 ^ 31
    → 3 * k.rx_rttval + (k.rx_srtt + rtt) < 2 ^ 31
    → ((smooth k rtt).rx_srtt ≡ exact_srtt k.rx_srtt rtt)
      × ((smooth k rtt).rx_rttval ≡ exact_rttval k.rx_rttval k.rx_srtt rtt)
      × ((smooth k rtt).rx_minrto ≡ k.rx_minrto)
unfolding smooth
smooth_lem k rtt ne hs hv = rw (not_first k.rx_srtt ne) (
  srtt_lem k.rx_srtt rtt hs,
  rttval_lem k.rx_rttval (distance rtt k.rx_srtt) (omega (arith, apart))
      ∙ ap (λ d. (3 * k.rx_rttval + d) / 4) apart,
  refl,
)
  where
    apart : distance rtt k.rx_srtt ≡ (rtt - k.rx_srtt) + (k.rx_srtt - rtt)
    apart = distance_lem rtt k.rx_srtt (omega arith) (omega arith)

-- Whatever round trip is measured behind the first, where no intermediate result leaves the range
-- of an int: the timeout stays between the configured least one and a minute, and the estimates
-- are the exact ones, seven parts of the old and one of the new for the mean, at least 1, and
-- three parts of the old and one of the distance for the variation.
pub update_ack_lem :
    (k : Ikcpcb) (rtt : ℕ)
    → k.rx_srtt ≢ 0
    → 7 * k.rx_srtt + rtt < 2 ^ 31
    → 3 * k.rx_rttval + (k.rx_srtt + rtt) < 2 ^ 31
    → ((update_ack k rtt).rx_srtt ≡ exact_srtt k.rx_srtt rtt)
      × ((update_ack k rtt).rx_rttval ≡ exact_rttval k.rx_rttval k.rx_srtt rtt)
      × ((update_ack k rtt).rx_rto ≤ rto_max)
      × (min k.rx_minrto rto_max ≤ (update_ack k rtt).rx_rto)
unfolding update_ack
update_ack_lem k rtt ne hs hv =
    let s = smooth k rtt in
    let facts = smooth_lem k rtt ne hs hv in
    let rto = add32 s.rx_srtt (imax s.interval (mul32 4 s.rx_rttval)) in
    (
      facts.0,
      facts.1,
      (ibound_bounds s.rx_minrto rto rto_max).0,
      subst (λ m. min m rto_max ≤ ibound s.rx_minrto rto rto_max) facts.2
          (ibound_bounds s.rx_minrto rto rto_max).1,
    )
