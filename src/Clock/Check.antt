-- ===== src/Clock/Check.antt =====
-- The time that `ikcp_check` returns, ikcp.c:1183-1219.
use fiber_kcp.Prelude.{
  ℕ, ◌≤◌, ◌<◌, ◌≡◌, ◌⊎◌, leb, if◌then◌else◌, List, All, Option, none, some, ℤ, pos, negsuc, ltb_ℤ,
}
use fiber_kcp.Word.{add32, sub32, itimediff, pattern32}
use fiber_kcp.Wire.{Segment}
use fiber_kcp.Control.{Ikcpcb}
use fiber_kcp.Clock.Schedule.{IsAhead}

-- Seen from `now`, the segment is not sent again within `d` milliseconds.
abbrev pub Rests : ℕ → ℕ → Segment → Type 0
Rests now d s = d ≤ sub32 s.resendts now

-- What the loop over `snd_buf` finds: a distance ahead, and no segment is due before it.
abbrev Found : ℕ → ℕ → List Segment → Option ℤ → Type 0
Found now least buf none = Unit
Found now least buf (some (negsuc n)) = ⊥
Found now least buf (some (pos d)) = (0 < d) × (d ≤ least) × All (Rests now d) buf

-- The time that `ikcp_check` returns, at a distance `d`: no segment is due before it, and either it
-- is now or the next flush is ahead and not before it.
abbrev Promise : Ikcpcb → ℕ → ℕ → Type 0
Promise k now r =
    (sub32 r now ≤ k.interval)
    × All (Rests now (sub32 r now)) k.snd_buf
    × ((sub32 r now ≡ 0) ⊎ (IsAhead now k.ts_flush × (sub32 r now ≤ sub32 k.ts_flush now)))

-- The end of `ikcp_check`, for the distances of the next segment and of the next flush.
abbrev pending : Ikcpcb → ℕ → ℤ → ℕ
pending k now tm_packet =
    let tm_flush = itimediff k.ts_flush now in
    let minimal = pattern32 (if ltb_ℤ tm_packet tm_flush then tm_packet else tm_flush) in
    add32 now (if leb k.interval minimal then k.interval else minimal)
