-- ===== src/Send/Fragments.antt =====
-- The fragments that the loop of ikcp.c:515-534 cuts.
use fiber_kcp.Prelude.{
  ℕ, if◌then◌else◌, ◌==◌, zero, suc, ◌+◌, ◌-◌, ◌*◌, ◌/◌, ◌^◌, ◌≤◌, ◌<◌, ◌≡◌, refl, ap, sym, ◌∙◌,
  subst, List, ◌++◌, arith, length, All, ltb, Bool, false, Bool-cases, inl, inr, ◌%◌, take, drop,
  take-append-drop, take-all, length-take, length-drop, append-nil,
}
use native.Mathlib.Nat.{div-add-mod, mod-lt}
use fiber_kcp.Word.{add32, sub32, gt_int}
use fiber_kcp.Send.{fragment, fragment_count, cut, piece_size}
use fiber_kcp.Recv.Message.{IsMessage, total, contents, HasLen, IsWhole}

-- Lengths fit an `int`, and `c + 1` pieces are just enough.
pub record Fits (c mss len : ℕ) : Type 0 where
  pub mss_pos : 0 < mss
  pub mss_int : mss < 2 ^ 31
  pub len_int : len < 2 ^ 31
  pub enough : len ≤ c * mss + mss
  pub needed : c * mss ≤ len

gt_int-ltb : (a b : ℕ) → a < 2 ^ 31 → b < 2 ^ 31 → gt_int a b ≡ ltb b a
gt_int-ltb a b h k = ground arith

Ceiling : ℕ → ℕ → ℕ → Type 0
Ceiling mss len q = (c : ℕ) × (q ≡ suc c) × (c * mss ≤ len) × (len ≤ c * mss + mss)

quotient-Ceiling :
    (mss len q r : ℕ) → q * mss + r ≡ len + mss - 1 → r < mss → 0 < len → Ceiling mss len q
unfolding Ceiling
quotient-Ceiling mss len zero r e h p = absurd (omega arith)
quotient-Ceiling mss len (suc c) r e h p = (c, refl, omega arith, omega arith)

pub fragment_count-Fits :
    (mss len : ℕ)
    → 0 < mss
    → mss < 2 ^ 31
    → len < 2 ^ 31
    → (c : ℕ) × (fragment_count mss len ≡ suc c) × Fits c mss len
unfolding fragment_count Ceiling
fragment_count-Fits mss len h1 h2 h3 = elim (Bool-cases (ltb mss len)) [
  | inl more ↦
      rw (gt_int-ltb len mss h3 h2, more)
        (go (
          quotient-Ceiling mss len (sub32 (add32 len mss) 1 / mss) (sub32 (add32 len mss) 1 % mss)
            (omega (arith, div-add-mod (sub32 (add32 len mss) 1) mss))
            (mod-lt (sub32 (add32 len mss) 1) h1) (ground arith)))
  | inr less ↦
      rw (gt_int-ltb len mss h3 h2, less)
        (
          0,
          refl,
          record {
            mss_pos = h1;
            mss_int = h2;
            len_int = h3;
            enough = ground arith;
            needed = omega arith;
          },
        )
]
  where
    go :
        Ceiling mss len (sub32 (add32 len mss) 1 / mss)
        → (c : ℕ) × ((if sub32 (add32 len mss) 1 / mss == 0
              then 1
              else sub32 (add32 len mss) 1 / mss)
            ≡ suc c)
          × Fits c mss len
    go (c, e, lo, hi) = (
      c,
      ground (arith, e),
      record { mss_pos = h1; mss_int = h2; len_int = h3; enough = hi; needed = lo },
    )

module _ (mss : ℕ) where
  Fits-next : (c len : ℕ) → Fits (suc c) mss len → Fits c mss (len - mss)
  Fits-next c len f = record {
    mss_pos = f.mss_pos;
    mss_int = f.mss_int;
    len_int = omega (arith, f.len_int);
    enough = grind (arith, f.enough);
    needed = grind (arith, f.needed);
  }

  Fits-full : (c len : ℕ) → Fits (suc c) mss len → mss ≤ len
  Fits-full c len f = grind (arith, f.needed)

  piece_full : (c len : ℕ) → Fits (suc c) mss len → piece_size mss len ≡ mss
  unfolding piece_size
  piece_full c len f = grind (arith, f.needed, f.len_int, f.mss_int)

  piece_last : (len : ℕ) → Fits zero mss len → piece_size mss len ≡ len
  unfolding piece_size
  piece_last len f = grind (arith, f.enough, f.len_int, f.mss_int)

  pub piece_room : (len : ℕ) → mss < 2 ^ 31 → len < 2 ^ 31 → piece_size mss len ≤ mss
  unfolding piece_size
  piece_room len h k = ground arith

  -- The fragments are one message.
  pub cut-IsMessage :
      (c : ℕ) (buffer : List ℕ) (len : ℕ) → IsMessage (cut (suc c) false mss buffer len)
  unfolding cut fragment
  cut-IsMessage zero buffer len = refl
  cut-IsMessage (suc c) buffer len =
      (omega arith, cut-IsMessage c (drop (piece_size mss len) buffer) (len - piece_size mss len))

  pub cut-HasLen :
      (c : ℕ) (stream : Bool) (buffer : List ℕ) (len : ℕ)
      → Fits c mss len
      → length buffer ≡ len
      → All HasLen (cut (suc c) stream mss buffer len)
  unfolding cut fragment
  cut-HasLen zero stream buffer len f h =
      (omega (arith, length-take (piece_size mss len) buffer, piece_last len f), tt)
  cut-HasLen (suc c) stream buffer len f h = (
    omega (arith, length-take (piece_size mss len) buffer, piece_full c len f, Fits-full c len f),
    subst (λ x. All HasLen (cut (suc c) stream mss (drop x buffer) (len - x)))
        (sym (piece_full c len f))
        (cut-HasLen c stream (drop mss buffer) (len - mss) (Fits-next c len f)
          (omega (arith, length-drop mss buffer))),
  )

  pub cut-contents :
      (c : ℕ) (stream : Bool) (buffer : List ℕ) (len : ℕ)
      → Fits c mss len
      → length buffer ≡ len
      → contents (cut (suc c) stream mss buffer len) ≡ buffer
  unfolding cut fragment
  cut-contents zero stream buffer len f h =
      append-nil (take (piece_size mss len) buffer)
      ∙ take-all (piece_size mss len) buffer (omega (arith, piece_last len f))
  cut-contents (suc c) stream buffer len f h = rw (piece_full c len f) (
      ap (λ l. take mss buffer ++ l)
        (cut-contents c stream (drop mss buffer) (len - mss) (Fits-next c len f)
          (omega (arith, length-drop mss buffer)))
      ∙ take-append-drop mss buffer)

  pub cut-total :
      (c : ℕ) (stream : Bool) (buffer : List ℕ) (len : ℕ)
      → Fits c mss len
      → total (cut (suc c) stream mss buffer len) ≡ len
  unfolding cut fragment
  cut-total zero stream buffer len f = omega (arith, piece_last len f)
  cut-total (suc c) stream buffer len f = rw (piece_full c len f) (
      omega (
        arith,
        cut-total c stream (drop mss buffer) (len - mss) (Fits-next c len f),
        Fits-full c len f,
      ))

  pub length-cut :
      (c : ℕ) (stream : Bool) (buffer : List ℕ) (len : ℕ) → length (cut c stream mss buffer len) ≡ c
  unfolding cut
  length-cut zero stream buffer len = refl
  length-cut (suc c) stream buffer len =
      ap suc (length-cut c stream (drop (piece_size mss len) buffer) (len - piece_size mss len))

  pub cut-room :
      (c : ℕ) (stream : Bool) (buffer : List ℕ) (len : ℕ)
      → mss < 2 ^ 31
      → len < 2 ^ 31
      → All (λ s. s.len ≤ mss) (cut c stream mss buffer len)
  unfolding cut fragment
  cut-room zero stream buffer len h k = tt
  cut-room (suc c) stream buffer len h k = (
    piece_room len h k,
    cut-room c stream (drop (piece_size mss len) buffer) (len - piece_size mss len) h (omega arith),
  )

  pub cut-IsWhole :
      (c que : ℕ) (buffer : List ℕ) (len : ℕ)
      → c + 1 ≤ que
      → IsWhole (cut (suc c) false mss buffer len) que
  unfolding cut fragment
  cut-IsWhole c que buffer len h = h
