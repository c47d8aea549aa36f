-- ===== src/Wire/Tests.antt =====
-- Runs of the codec.
use fiber_kcp.Prelude.{[], ◌∷◌, ◌++◌, ◌≡◌, some, arith}
use fiber_kcp.Wire.{Segment, decode_header, encode_seg}
use fiber_kcp.Wire.RoundTrip.{header_of, decode_header-encode_seg}

abbrev sample : Segment
sample = record {
  conv = 0x4b435001;
  cmd = 81;
  frg = 2;
  wnd = 128;
  ts = 1000;
  sn = 7;
  una = 3;
  len = 2;
  resendts = 0;
  rto = 0;
  fastack = 0;
  xmit = 0;
  payload = 1 ∷ 2 ∷ [];
}

decode_header-encode_seg_example :
    decode_header (encode_seg sample ++ 9 ∷ []) ≡ some (header_of sample, 9 ∷ [])
decode_header-encode_seg_example = decode_header-encode_seg sample (9 ∷ []) (omega arith)
