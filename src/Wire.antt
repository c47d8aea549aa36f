-- ===== src/Wire.antt =====
-- ikcp.h:267-283 and ikcp.c:49-121, 903-917. Segments and their byte layout.
-- A write through a pointer is the list of the bytes written; a read returns the value with the
-- bytes behind it, and `none` is a read past the end. On a little-endian machine `memcpy` writes
-- the bytes that the portable branch spells out.
pub mod RoundTrip
mod Tests
use fiber_kcp.Prelude.{ℕ, ◌+◌, ◌*◌, ◌/◌, ◌%◌, List, [], ◌∷◌, ◌++◌, Option, none, some, ◌>>=◌}

-- `struct IKCPSEG` without its queue node; `payload` is the flexible array `data`.
pub record Segment : Type 0 where
  pub conv : ℕ
  pub cmd : ℕ
  pub frg : ℕ
  pub wnd : ℕ
  pub ts : ℕ
  pub sn : ℕ
  pub una : ℕ
  pub len : ℕ
  pub resendts : ℕ
  pub rto : ℕ
  pub fastack : ℕ
  pub xmit : ℕ
  pub payload : List ℕ

abbrev pub encode8u : ℕ → List ℕ
encode8u c = c % 256 ∷ []

abbrev pub encode16u : ℕ → List ℕ
encode16u w = w % 256 ∷ w / 256 % 256 ∷ []

abbrev pub encode32u : ℕ → List ℕ
encode32u l = l % 256 ∷ l / 256 % 256 ∷ l / 65536 % 256 ∷ l / 16777216 % 256 ∷ []

abbrev pub decode8u : List ℕ → Option (ℕ × List ℕ)
decode8u [] = none
decode8u (a ∷ p) = some (a, p)

abbrev pub decode16u : List ℕ → Option (ℕ × List ℕ)
decode16u (a ∷ b ∷ p) = some (a + b * 256, p)
decode16u _ = none

abbrev pub decode32u : List ℕ → Option (ℕ × List ℕ)
decode32u (a ∷ b ∷ c ∷ d ∷ p) = some (a + b * 256 + c * 65536 + d * 16777216, p)
decode32u _ = none

-- `ikcp_encode_seg`, the 24 bytes of a header.
unfoldable pub encode_seg : Segment → List ℕ
encode_seg s =
    encode32u s.conv
    ++ encode8u s.cmd
    ++ encode8u s.frg
    ++ encode16u s.wnd
    ++ encode32u s.ts
    ++ encode32u s.sn
    ++ encode32u s.una
    ++ encode32u s.len

-- The locals that one turn of the loop of `ikcp_input` reads from a header.
pub record Header : Type 0 where
  pub conv : ℕ
  pub cmd : ℕ
  pub frg : ℕ
  pub wnd : ℕ
  pub ts : ℕ
  pub sn : ℕ
  pub una : ℕ
  pub len : ℕ

-- ikcp.c:769-778.
unfoldable pub decode_header : List ℕ → Option (Header × List ℕ)
decode_header p = do
  (conv, p1) ← decode32u p
  (cmd, p2) ← decode8u p1
  (frg, p3) ← decode8u p2
  (wnd, p4) ← decode16u p3
  (ts, p5) ← decode32u p4
  (sn, p6) ← decode32u p5
  (una, p7) ← decode32u p6
  (len, p8) ← decode32u p7
  some (
    record { conv = conv; cmd = cmd; frg = frg; wnd = wnd; ts = ts; sn = sn; una = una; len = len },
    p8,
  )

-- `ikcp_getconv`.
unfoldable pub getconv : List ℕ → Option ℕ
getconv p = do (conv, rest) ← decode32u p; some conv
