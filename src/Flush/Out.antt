-- ===== src/Flush/Out.antt =====
-- ikcp.c:204-213 and 958-968: what is held for a datagram, and how it is handed out.
use fiber_kcp.Prelude.{ℕ, List, [], ◌∷◌, ◌++◌, if◌then◌else◌, length}
use fiber_kcp.Word.{add32, gt_int}
use fiber_kcp.Wire.{Segment, encode_seg}
use fiber_kcp.Control.{overhead}

-- The bytes between `buffer` and `ptr`, and the datagrams handed out so far.
pub record Output : Type 0 where
  pub held : List ℕ
  pub sent : List (List ℕ)

-- `ikcp_output` of what is held, with `ptr = buffer` behind it; an empty buffer is not handed out.
unfoldable pub hand_out : Output → Output
hand_out o = record { held = []; sent = keep o.held }
  where
    keep : List ℕ → List (List ℕ)
    keep [] = o.sent
    keep (b ∷ bs) = o.sent ++ ((b ∷ bs) ∷ [])

-- ikcp.c:959-963 and its repetitions, before `need` more bytes.
unfoldable pub make_room : ℕ → ℕ → Output → Output
make_room mtu need o = if gt_int (add32 (length o.held) need) mtu then hand_out o else o

unfoldable pub write : List ℕ → Output → Output
write bytes o = record o { held = o.held ++ bytes }

unfoldable pub put_header : ℕ → Segment → Output → Output
put_header mtu s o = write (encode_seg s) (make_room mtu overhead o)
