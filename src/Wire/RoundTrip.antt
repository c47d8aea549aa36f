-- ===== src/Wire/RoundTrip.antt =====
-- Reading a header back.
use fiber_kcp.Prelude.{
  ℕ, ◌+◌, ◌*◌, ◌/◌, ◌%◌, ◌^◌, ◌<◌, ◌≤◌, ◌≡◌, refl, List, ◌∷◌, ◌++◌, some, arith, length,
}
use fiber_kcp.Wire.{Segment, Header, encode_seg, decode_header}

-- The fields of a segment fit the widths that the wire gives them.
pub record IsWired (s : Segment) : Type 0 where
  pub conv : s.conv < 2 ^ 32
  pub cmd : s.cmd < 2 ^ 8
  pub frg : s.frg < 2 ^ 8
  pub wnd : s.wnd < 2 ^ 16
  pub ts : s.ts < 2 ^ 32
  pub sn : s.sn < 2 ^ 32
  pub una : s.una < 2 ^ 32
  pub len : s.len < 2 ^ 32

abbrev pub header_of : Segment → Header
header_of s = record {
  conv = s.conv;
  cmd = s.cmd;
  frg = s.frg;
  wnd = s.wnd;
  ts = s.ts;
  sn = s.sn;
  una = s.una;
  len = s.len;
}

pub length-encode_seg : (s : Segment) → length (encode_seg s) ≡ 24
unfolding encode_seg
length-encode_seg s = refl

word_back :
    (l : ℕ)
    → l < 2 ^ 32
    → l % 256 + l / 256 % 256 * 256 + l / 65536 % 256 * 65536 + l / 16777216 % 256 * 16777216 ≡ l
word_back l h = omega arith

-- A header read back from its encoding gives the fields it was written from, and leaves what
-- stands behind it; the fields must fit their wire widths.
pub decode_header-encode_seg :
    (s : Segment) (rest : List ℕ)
    → IsWired s
    → decode_header (encode_seg s ++ rest) ≡ some (header_of s, rest)
unfolding encode_seg decode_header
decode_header-encode_seg s rest w =
    ground
      (arith, word_back s.conv, word_back s.ts, word_back s.sn, word_back s.una, word_back s.len)

pub decode_header_total :
    (p : List ℕ)
    → 24 ≤ length p
    → (h : Header) × (q : List ℕ) × (decode_header p ≡ some (h, q)) × (length p ≡ length q + 24)
unfolding decode_header
decode_header_total
      (a ∷ b ∷ c ∷ d ∷ e ∷ f ∷ g ∷ h ∷ i ∷ j ∷ k ∷ l ∷ m ∷ n ∷ o ∷ p ∷ q ∷ r ∷ s ∷ t ∷ u ∷ v ∷ w ∷ x
        ∷ rest)
      le =
    (_, rest, refl, omega arith)
decode_header_total _ le = absurd (omega arith)
