-- ===== src/Word/Serial.antt =====
-- The order that `_itimediff` gives on serial numbers.
use fiber_kcp.Prelude.{ℕ, ◌^◌, ◌≡◌, ◌<◌, ltb, is_neg, is_pos, arith}
use fiber_kcp.Word.{u32_mod, sub32, itimediff}

-- Seen from any base less than half the number space behind both, _itimediff(a, b) < 0 compares
-- the two distances; all three are 32-bit words.
pub itimediff-is_neg :
    (base a b : ℕ)
    → base < u32_mod
    → a < u32_mod
    → b < u32_mod
    → sub32 a base < 2 ^ 31
    → sub32 b base < 2 ^ 31
    → is_neg (itimediff a b) ≡ ltb (sub32 a base) (sub32 b base)
unfolding itimediff
itimediff-is_neg base a b hz ha hb da db = ground arith

pub itimediff-is_pos :
    (base a b : ℕ)
    → base < u32_mod
    → a < u32_mod
    → b < u32_mod
    → sub32 a base < 2 ^ 31
    → sub32 b base < 2 ^ 31
    → is_pos (itimediff a b) ≡ ltb (sub32 b base) (sub32 a base)
unfolding itimediff
itimediff-is_pos base a b hz ha hb da db = ground arith
