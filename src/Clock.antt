-- ===== src/Clock.antt =====
-- ikcp.c:1146-1219. The clock: when to flush, and when to be called again.
pub mod Schedule
pub mod Check
pub mod Safe
mod Tests
use fiber_kcp.Prelude.{
  ℕ, Bool, ◌||◌, Option, none, some, List, [], ◌∷◌, leb, ◌==◌, if◌then◌else◌, ℤ, pos, negsuc,
  is_neg, is_pos, ltb_ℤ, leb_ℤ,
}
use fiber_kcp.Word.{add32, itimediff, pattern32}
use fiber_kcp.Wire.{Segment}
use fiber_kcp.Control.{Ikcpcb}
use fiber_kcp.Flush.{flush}

-- `slap >= 10000 || slap < -10000`.
pub far_off : ℤ → Bool
far_off slap = leb_ℤ (pos 10000) slap || ltb_ℤ slap (negsuc 9999)

-- ikcp.c:1150-1155: the clock is set, and starts with the first call.
pub start_clock : Ikcpcb → ℕ → Ikcpcb
start_clock k now =
    if k.updated == 0
    then record k { current = now; updated = 1; ts_flush = now }
    else record k { current = now }

-- ikcp.c:1157-1162: a flush time that is far off becomes now.
pub reset_flush : Ikcpcb → ℕ → Ikcpcb
reset_flush k now = if far_off (itimediff now k.ts_flush) then record k { ts_flush = now } else k

-- ikcp.c:1165-1168.
pub next_flush : Ikcpcb → Ikcpcb
next_flush k =
    let due = add32 k.ts_flush k.interval in
    record k {
      ts_flush = if is_neg (itimediff k.current due) then due else add32 k.current k.interval;
    }

-- `ikcp_update`.
unfoldable pub update : Ikcpcb → ℕ → Ikcpcb × List (List ℕ)
unfolding start_clock reset_flush next_flush far_off
update k now =
    let k1 = reset_flush (start_clock k now) now in
    if is_neg (itimediff now k1.ts_flush) then (k1, []) else flush (next_flush k1)

-- ikcp.c:1206-1213: `none` is the return of `current` for a segment that is due.
pub next_resend : ℕ → ℤ → List Segment → Option ℤ
next_resend now least [] = some least
next_resend now least (s ∷ buf) =
    let diff = itimediff s.resendts now in
    if is_pos diff then next_resend now (if ltb_ℤ diff least then diff else least) buf else none

-- ikcp.c:1204-1218, for a flush that is still to come.
pub check_pending : Ikcpcb → ℕ → ℕ → ℕ
check_pending k ts_flush now =
    let tm_flush = itimediff ts_flush now in
    elim (next_resend now (pos 0x7fff_ffff) k.snd_buf) [
      | none ↦ now
      | some tm_packet ↦
          let minimal = pattern32 (if ltb_ℤ tm_packet tm_flush then tm_packet else tm_flush) in
          add32 now (if leb k.interval minimal then k.interval else minimal)
    ]

-- `ikcp_check`.
unfoldable pub check : Ikcpcb → ℕ → ℕ
unfolding check_pending next_resend far_off
check k now =
    let ts_flush = if far_off (itimediff now k.ts_flush) then now else k.ts_flush in
    if k.updated == 0
    then now
    else if is_neg (itimediff now ts_flush)
    then check_pending k ts_flush now
    else now
