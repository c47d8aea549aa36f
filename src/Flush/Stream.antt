-- ===== src/Flush/Stream.antt =====
-- The bytes that `ikcp_flush` hands out, whatever the datagrams they are cut into.
use Prim.Native.Nat.{bit_and}
use fiber_kcp.Prelude.{
  ℕ, zero, suc, ◌+◌, ◌≤◌, ◌≡◌, ◌≢◌, refl, arith, ap, sym, ◌∙◌, ◌==◌, if◌then◌else◌, if_cases,
  Bool-cases, inl, inr, List, [], ◌∷◌, ◌++◌, append-nil, append_assoc, length, take, drop, get_or,
}
use fiber_kcp.Word.{add32, gt_int}
use fiber_kcp.Wire.{Segment, encode_seg}
use fiber_kcp.Control.{Ikcpcb, ask_send, ask_tell, cmd_wask, cmd_wins, overhead}
use fiber_kcp.Ack.{ack_get}
use fiber_kcp.Ack.Pending.{pending, IsPending}
use fiber_kcp.Flush.{
  flush, flush_control, flush_segments, flush_acks, flush_probe, fill_window, plan_probe, template,
  send_window, wnd_unused, resend_limit, least_rto,
}
use fiber_kcp.Flush.Out.{hand_out, make_room, write, put_header, Output}
use fiber_kcp.Flush.Data.{
  flush_data, flush_one, put_data, note, retime, stamp, reason, Reason, first, timeout, skipped,
  idle, Round,
}
use fiber_kcp.Flush.Safe.{flush-segments}

-- Datagrams one behind the other.
abbrev pub joined : List (List ℕ) → List ℕ
joined [] = []
joined (d ∷ ds) = d ++ joined ds

joined-append : (a b : List (List ℕ)) → joined (a ++ b) ≡ joined a ++ joined b
joined-append [] b = refl
joined-append (d ∷ a) b =
    ap (λ l. d ++ l) (joined-append a b) ∙ sym (append_assoc d (joined a) (joined b))

-- All bytes put so far.
abbrev stream : Output → List ℕ
stream o = joined o.sent ++ o.held

hand_out-stream :
    (held : List ℕ) (sent : List (List ℕ))
    → joined (hand_out (record { held = held; sent = sent })).sent ≡ joined sent ++ held
unfolding hand_out
hand_out-stream [] sent = sym (append-nil (joined sent))
hand_out-stream (b ∷ bs) sent =
    joined-append sent ((b ∷ bs) ∷ []) ∙ ap (λ l. joined sent ++ l) (append-nil (b ∷ bs))

hand_out-held : (o : Output) → (hand_out o).held ≡ []
unfolding hand_out
hand_out-held o = refl

make_room-stream : (mtu need : ℕ) (o : Output) → stream (make_room mtu need o) ≡ stream o
unfolding make_room
make_room-stream mtu need o =
    if_cases (λ x. stream x ≡ stream o) (gt_int (add32 (length o.held) need) mtu) _ _
      (λ _.
        ap (λ l. joined (hand_out o).sent ++ l) (hand_out-held o)
        ∙ append-nil _
        ∙ hand_out-stream o.held o.sent)
      (λ _. refl)

put-stream :
    (mtu need : ℕ) (bytes : List ℕ) (o : Output)
    → stream (write bytes (make_room mtu need o)) ≡ stream o ++ bytes
unfolding write
put-stream mtu need bytes o =
    sym (append_assoc (joined (make_room mtu need o).sent) (make_room mtu need o).held bytes)
    ∙ ap (λ l. l ++ bytes) (make_room-stream mtu need o)

put_header-stream :
    (mtu : ℕ) (s : Segment) (o : Output) → stream (put_header mtu s o) ≡ stream o ++ encode_seg s
unfolding put_header
put_header-stream mtu s o = put-stream mtu overhead (encode_seg s) o

-- One header for each pending pair, and the header that the last one leaves behind.
abbrev pub ack_headers : Segment → List (ℕ × ℕ) → List ℕ
ack_headers seg [] = []
ack_headers seg (p ∷ ps) =
    encode_seg (record seg { sn = p.0; ts = p.1 })
    ++ ack_headers (record seg { sn = p.0; ts = p.1 }) ps

abbrev pub last_header : Segment → List (ℕ × ℕ) → Segment
last_header seg [] = seg
last_header seg (p ∷ ps) = last_header (record seg { sn = p.0; ts = p.1 }) ps

take-get :
    (xs : List (ℕ × ℕ)) (i n : ℕ)
    → i + suc n ≤ length xs
    → take (suc n) (drop i xs) ≡ get_or xs i (0, 0) ∷ take n (drop (suc i) xs)
take-get [] i n h = absurd (omega arith)
take-get (x ∷ xs) zero n h = refl
take-get (x ∷ xs) (suc i) n h = take-get xs i n (omega arith)

flush_acks-stream :
    (n i : ℕ) (k : Ikcpcb) (seg : Segment) (o : Output)
    → i + n ≤ length k.acklist
    → (stream (flush_acks n i k seg o).1 ≡ stream o ++ ack_headers seg (take n (drop i k.acklist)))
      × ((flush_acks n i k seg o).0 ≡ last_header seg (take n (drop i k.acklist)))
unfolding flush_acks ack_get
flush_acks-stream zero i k seg o h = (sym (append-nil (stream o)), refl)
flush_acks-stream (suc n) i k seg o h = rw (take-get k.acklist i n h) (
    let p = get_or k.acklist i (0, 0) in
    let s : Segment = record seg { sn = p.0; ts = p.1 } in
    let (a, b) = flush_acks-stream n (i + 1) k s (put_header k.mtu s o) (omega arith) in
    let next : i + 1 ≡ suc i = omega arith in
    (
      a
          ∙ ap (λ l. l ++ ack_headers s (take n (drop (i + 1) k.acklist)))
              (put_header-stream k.mtu s o)
          ∙ append_assoc (stream o) (encode_seg s) _
          ∙ ap (λ m. stream o ++ (encode_seg s ++ ack_headers s (take n (drop m k.acklist)))) next,
      b ∙ ap (λ m. last_header s (take n (drop m k.acklist))) next,
    ))

-- The header of a probe, if it is asked for.
abbrev pub probe_header : Ikcpcb → ℕ → ℕ → Segment → List ℕ
probe_header k ask cmd seg =
    if bit_and k.probe ask == 0 then [] else encode_seg (record seg { cmd = cmd })

flush_probe-stream :
    (k : Ikcpcb) (ask cmd : ℕ) (seg : Segment) (o : Output)
    → stream (flush_probe k ask cmd seg o) ≡ stream o ++ probe_header k ask cmd seg
unfolding flush_probe
flush_probe-stream k ask cmd seg o = elim (Bool-cases (bit_and k.probe ask == 0)) [
  | inl quiet ↦ rw quiet (sym (append-nil (stream o)))
  | inr asked ↦ rw asked (put_header-stream k.mtu (record seg { cmd = cmd }) o)
]

-- A segment of the window as it goes out: not at all, or whole behind its header.
abbrev pub due_bytes : Ikcpcb → ℕ → ℕ → Reason → Segment → List ℕ
due_bytes k wnd rtomin idle s = []
due_bytes k wnd rtomin why s =
    let s' = stamp k wnd (retime k rtomin why s) in encode_seg s' ++ take s'.len s'.payload

abbrev pub data_bytes : Ikcpcb → ℕ → ℕ → ℕ → List Segment → List ℕ
data_bytes k wnd resent rtomin [] = []
data_bytes k wnd resent rtomin (s ∷ buf) =
    due_bytes k wnd rtomin (reason k resent s) s ++ data_bytes k wnd resent rtomin buf

flush_one-stream :
    (k : Ikcpcb) (wnd resent rtomin : ℕ) (why : Reason) (s : Segment) (r : Round)
    → stream (flush_one k wnd resent rtomin why s r).1.out
      ≡ stream r.out ++ due_bytes k wnd rtomin why s
unfolding flush_one put_data note
flush_one-stream k wnd resent rtomin first s r = put-stream k.mtu _ _ r.out
flush_one-stream k wnd resent rtomin timeout s r = put-stream k.mtu _ _ r.out
flush_one-stream k wnd resent rtomin skipped s r = put-stream k.mtu _ _ r.out
flush_one-stream k wnd resent rtomin idle s r = sym (append-nil (stream r.out))

flush_data-stream :
    (k : Ikcpcb) (wnd resent rtomin : ℕ) (buf : List Segment) (r : Round)
    → stream (flush_data k wnd resent rtomin buf r).1.out
      ≡ stream r.out ++ data_bytes k wnd resent rtomin buf
unfolding flush_data
flush_data-stream k wnd resent rtomin [] r = sym (append-nil (stream r.out))
flush_data-stream k wnd resent rtomin (s ∷ buf) r =
    flush_data-stream k wnd resent rtomin buf _
    ∙ ap (λ l. l ++ data_bytes k wnd resent rtomin buf)
        (flush_one-stream k wnd resent rtomin (reason k resent s) s r)
    ∙ append_assoc (stream r.out) _ _

-- The segments of the window, with those that the flush moves into it.
abbrev pub window : Ikcpcb → Ikcpcb
window k = fill_window (send_window k) (wnd_unused k) k k.snd_queue

-- Those of them that are due, as they go out.
abbrev pub window_bytes : Ikcpcb → List ℕ
window_bytes k =
    data_bytes (window k) (wnd_unused k) (resend_limit (window k)) (least_rto (window k))
      (window k).snd_buf

segments-stream :
    (k : Ikcpcb) (o : Output) → joined (flush_segments k o).1 ≡ stream o ++ window_bytes k
unfolding flush_segments
segments-stream k o =
    hand_out-stream _ _
    ∙ flush_data-stream (window k) (wnd_unused k) (resend_limit (window k)) (least_rto (window k))
        (window k).snd_buf _

-- What the control segments add up to.
abbrev pub control_bytes : Ikcpcb → List ℕ
control_bytes k =
    let seg = last_header (template k) (pending k) in
    let k1 = plan_probe (record k { ackcount = 0 }) in
    ack_headers (template k) (pending k)
    ++ (probe_header k1 ask_send cmd_wask seg ++ probe_header k1 ask_tell cmd_wins seg)

control-stream : (k : Ikcpcb) → IsPending k → stream (flush_control k).1 ≡ control_bytes k
unfolding flush_control
control-stream k v =
    let k1 = plan_probe (record k { ackcount = 0 }) in
    let empty : Output = record { held = []; sent = [] } in
    let f = flush_acks k.ackcount 0 k (template k) empty in
    let (a, b) = flush_acks-stream k.ackcount 0 k (template k) empty (omega (arith, v.written)) in
    flush_probe-stream k1 ask_tell cmd_wins f.0 _
    ∙ ap (λ l. l ++ probe_header k1 ask_tell cmd_wins f.0)
        (flush_probe-stream k1 ask_send cmd_wask f.0 f.1
          ∙ ap (λ l. l ++ probe_header k1 ask_send cmd_wask f.0) a)
    ∙ append_assoc (ack_headers (template k) (pending k)) _ _
    ∙ ap
        (λ s.
          ack_headers (template k) (pending k)
          ++ (probe_header k1 ask_send cmd_wask s ++ probe_header k1 ask_tell cmd_wins s))
        b

-- Once the clock runs, and cut into datagrams or not, ikcp_flush hands out exactly these bytes: a
-- header for each pending acknowledgement in the order of their arrival, a header for each probe
-- that is asked for, and then every segment of the window that is due, whole, in the order of the
-- window; the others not at all. The pending pairs lie within their block.
pub flush_stream :
    (k : Ikcpcb)
    → k.updated ≢ 0
    → IsPending k
    → joined (flush k).1 ≡ control_bytes k ++ window_bytes (flush_control k).0
flush_stream k u v =
    ap (λ (x : Ikcpcb × List (List ℕ)). joined x.1) (flush-segments k u)
    ∙ segments-stream (flush_control k).0 (flush_control k).1
    ∙ ap (λ l. l ++ window_bytes (flush_control k).0) (control-stream k v)
