-- ===== src/Word.antt =====
-- ikcp.c:123-139. 32-bit machine words as native numbers, and the wrapping order on serial numbers.
pub mod Serial
use fiber_kcp.Prelude.{
  ℕ, suc, ◌+◌, ◌-◌, ◌*◌, ◌/◌, ◌%◌, ◌^◌, ◌≡◌, Bool, ltb, leb, if◌then◌else◌, ℤ, pos, negsuc, ltb_ℤ,
  tdiv,
}

abbrev pub u32_mod : ℕ
u32_mod = 2 ^ 32

-- `uint32_t` sums, differences and products.
abbrev pub add32 : ℕ → ℕ → ℕ
add32 a b = (a + b) % u32_mod

abbrev pub sub32 : ℕ → ℕ → ℕ
sub32 a b = (a + u32_mod - b) % u32_mod

abbrev pub mul32 : ℕ → ℕ → ℕ
mul32 a b = (a * b) % u32_mod

-- An `int32_t` is kept as its bit pattern; this is the number that the pattern stands for.
abbrev pub signed32 : ℕ → ℤ
signed32 w = if ltb w (2 ^ 31) then pos w else negsuc (u32_mod - w - 1)

-- The bit pattern that a conversion of a longer integer to 32 bits keeps.
abbrev pub pattern32 : ℤ → ℕ
pattern32 (pos n) = n % u32_mod
pattern32 (negsuc n) = u32_mod - 1 - n % u32_mod

-- `a > b` between two patterns, read as `int`.
abbrev pub gt_int : ℕ → ℕ → Bool
gt_int a b = ltb_ℤ (signed32 b) (signed32 a)

-- `a / d` on patterns, for a small positive `d`.
abbrev pub sdiv32 : ℕ → ℕ → ℕ
sdiv32 a d = pattern32 (tdiv (signed32 a) d)

-- `a >> k` on patterns: an arithmetic shift rounds down.
abbrev pub sar32 : ℕ → ℕ → ℕ
sar32 a k = if ltb a (2 ^ 31) then a / 2 ^ k else u32_mod - suc ((u32_mod - a - 1) / 2 ^ k)

-- `_imin_`, `_imax_`, `_ibound_`, `_itimediff`.
abbrev pub imin : ℕ → ℕ → ℕ
imin a b = if leb a b then a else b

abbrev pub imax : ℕ → ℕ → ℕ
imax a b = if leb b a then a else b

abbrev pub ibound : ℕ → ℕ → ℕ → ℕ
ibound lower middle upper = imin (imax lower middle) upper

unfoldable pub itimediff : ℕ → ℕ → ℤ
itimediff later earlier = signed32 (sub32 later earlier)
