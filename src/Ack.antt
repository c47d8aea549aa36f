-- ===== src/Ack.antt =====
-- ikcp.c:543-677. What an acknowledgement does to the sender, and the list of those to send back.
pub mod Estimate
pub mod Order
pub mod Cumulative
pub mod Selective
pub mod Skips
pub mod Safe
pub mod Pending
mod Tests
use fiber_kcp.Prelude.{
  ℕ, zero, suc, ◌-◌, Bool, true, false, not, ◌&&◌, ◌||◌, List, [], ◌∷◌, ltb, leb, ◌==◌,
  if◌then◌else◌, ℤ, pos, negsuc, is_neg, is_pos, ◌+ℤ◌, tdiv, get_or,
}
use fiber_kcp.Word.{
  add32, sub32, mul32, imax, ibound, signed32, pattern32, sdiv32, itimediff, u32_mod,
}
use fiber_kcp.Wire.{Segment}
use fiber_kcp.Control.{Ikcpcb, rto_max}

-- `delta`, the distance of two `int32_t` patterns, in the wider type `long`.
pub distance : ℕ → ℕ → ℕ
distance rtt srtt = let d = sub32 rtt srtt in if is_neg (signed32 d) then u32_mod - d else d

-- ikcp.c:546-555: the smoothed round trip time and its variation.
pub smooth : Ikcpcb → ℕ → Ikcpcb
unfolding distance
smooth k rtt =
    if k.rx_srtt == 0
    then record k { rx_srtt = rtt; rx_rttval = sdiv32 rtt 2 }
    else (let srtt = sdiv32 (add32 (mul32 7 k.rx_srtt) rtt) 8 in
        record k {
          rx_rttval =
              pattern32 (tdiv (signed32 (mul32 3 k.rx_rttval) +ℤ pos (distance rtt k.rx_srtt)) 4);
          rx_srtt = if is_pos (signed32 srtt) then srtt else 1;
        })

-- `ikcp_update_ack`; `rtt` is a bit pattern.
unfoldable pub update_ack : Ikcpcb → ℕ → Ikcpcb
unfolding smooth
update_ack k rtt =
    let k1 = smooth k rtt in
    let rto = add32 k1.rx_srtt (imax k1.interval (mul32 4 k1.rx_rttval)) in
    record k1 { rx_rto = ibound k1.rx_minrto rto rto_max }

pub first_sn : ℕ → List Segment → ℕ
first_sn otherwise [] = otherwise
first_sn otherwise (s ∷ buf) = s.sn

-- `ikcp_shrink_buf`.
unfoldable pub shrink_buf : Ikcpcb → Ikcpcb
unfolding first_sn
shrink_buf k = record k { snd_una = first_sn k.snd_nxt k.snd_buf }

-- The guard of ikcp.c:575 and 613.
pub not_sent : Ikcpcb → ℕ → Bool
not_sent k sn = is_neg (itimediff sn k.snd_una) || not (is_neg (itimediff sn k.snd_nxt))

-- The loop of `ikcp_parse_ack`, with the count.
pub remove_sn : ℕ → ℕ → List Segment → ℕ × List Segment
remove_sn sn n [] = (n, [])
remove_sn sn n (s ∷ buf) =
    let (n', rest) = remove_sn sn n buf in
    if sn == s.sn
    then (sub32 n 1, buf)
    else if is_neg (itimediff sn s.sn)
    then (n, s ∷ buf)
    else (n', s ∷ rest)

-- `ikcp_parse_ack`.
unfoldable pub parse_ack : Ikcpcb → ℕ → Ikcpcb
unfolding remove_sn not_sent
parse_ack k sn =
    let (n, buf) = remove_sn sn k.nsnd_buf k.snd_buf in
    if not_sent k sn then k else record k { nsnd_buf = n; snd_buf = buf }

-- The loop of `ikcp_parse_una`, with the count.
pub drop_before : ℕ → ℕ → List Segment → ℕ × List Segment
drop_before una n [] = (n, [])
drop_before una n (s ∷ buf) =
    if is_pos (itimediff una s.sn) then drop_before una (sub32 n 1) buf else (n, s ∷ buf)

-- `ikcp_parse_una`.
unfoldable pub parse_una : Ikcpcb → ℕ → Ikcpcb
unfolding drop_before
parse_una k una =
    let (n, buf) = drop_before una k.nsnd_buf k.snd_buf in record k { nsnd_buf = n; snd_buf = buf }

-- The loop of `ikcp_parse_fastack`, as built without `IKCP_FASTACK_CONSERVE`.
pub count_skips : ℕ → List Segment → List Segment
count_skips sn [] = []
count_skips sn (s ∷ buf) =
    if is_neg (itimediff sn s.sn)
    then s ∷ buf
    else (if sn == s.sn then s else record s { fastack = add32 s.fastack 1 }) ∷ count_skips sn buf

-- `ikcp_parse_fastack`.
unfoldable pub parse_fastack : Ikcpcb → ℕ → Ikcpcb
unfolding count_skips not_sent
parse_fastack k sn = if not_sent k sn then k else record k { snd_buf = count_skips sn k.snd_buf }

-- ikcp.c:646. Doubling from 8 passes every 32-bit number within 29 rounds or wraps to zero.
pub grow_block : ℕ → ℕ → ℕ → ℕ
grow_block zero newblock newsize = newblock
grow_block (suc fuel) newblock newsize =
    let next = grow_block fuel (mul32 newblock 2) newsize in
    if ltb newblock newsize then next else newblock

-- A write at an index of an array of which the first entries are given.
pub write_at {ℓ} : {A : Type ℓ} → List A → ℕ → A → List A
write_at [] i x = x ∷ []
write_at (y ∷ ys) zero x = x ∷ ys
write_at (y ∷ ys) (suc i) x = y ∷ write_at ys i x

-- `ikcp_ack_push`. A new block takes over the pairs that are counted.
unfoldable pub ack_push : Ikcpcb → ℕ → ℕ → Ikcpcb
unfolding grow_block write_at
ack_push k sn ts =
    let newsize = add32 k.ackcount 1 in
    record k {
      ackblock = if ltb k.ackblock newsize then grow_block 30 8 newsize else k.ackblock;
      acklist = write_at k.acklist k.ackcount (sn, ts);
      ackcount = add32 k.ackcount 1;
    }

-- `ikcp_ack_get`.
unfoldable pub ack_get : Ikcpcb → ℕ → ℕ × ℕ
ack_get k p = get_or k.acklist p (0, 0)
