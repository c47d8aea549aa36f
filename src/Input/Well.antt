-- ===== src/Input/Well.antt =====
-- The invariant of a control block behind `ikcp_input`.
use Prim.Native.Nat.{bit_or}
use fiber_kcp.Prelude.{
  ℕ, zero, suc, ◌-◌, ◌≤◌, ◌<◌, ◌≡◌, arith, sym, ◌∙◌, subst, ◌&&◌, ltb, leb, ◌==◌, if◌then◌else◌,
  Bool-cases, inl, inr, List, [], ◌∷◌, All, length, drop, length-drop, Option, none, some, ℤ, pos,
  negsuc, is_neg, is_pos, if_cases,
}
use fiber_kcp.Word.{u32_mod, add32, sub32, itimediff}
use fiber_kcp.Wire.{Segment, Header, decode_header}
use fiber_kcp.Wire.RoundTrip.{decode_header_total}
use fiber_kcp.Control.{Ikcpcb, overhead, cmd_ack, cmd_push, cmd_wask, ask_tell}
use fiber_kcp.Recv.{parse_data}
use fiber_kcp.Recv.Moves.{moved_over-run}
use fiber_kcp.Recv.Arrival.{IsReceiving, parse_data-IsReceiving}
use fiber_kcp.Recv.Delivery.{Delivers, parse_data-Delivers, parse_data_outside}
use fiber_kcp.Ack.{parse_una, shrink_buf, parse_ack, update_ack, ack_push}
use fiber_kcp.Ack.Safe.{
  IsWell, parse_una-IsWell, parse_ack-IsWell, update_ack-IsWell, parse_fastack-IsWell,
  ack_push-IsWell,
}
use fiber_kcp.Input.{
  input, input_loop, Ending, stopped, finished, on_segment, on_ack, on_push, arrived, mark_ack,
  finish, natural, after_loop, too_short, widen, cap_window, grow_window, skipped,
}
use fiber_kcp.Input.Total.{input_loop-turn, turn_cases, input_lem, input_total}

abbrev pub IsByte : ℕ → Type 0
IsByte b = b < 256

-- A header read from bytes has a 32-bit number, and bytes stand behind it.
abbrev IsRead : Option (Header × List ℕ) → Type 0
IsRead none = Unit
IsRead (some (h, q)) = (h.sn < u32_mod) × All IsByte q

decode_header-IsRead : (p : List ℕ) → 24 ≤ length p → All IsByte p → IsRead (decode_header p)
unfolding decode_header
decode_header-IsRead
      (a ∷ b ∷ c ∷ d ∷ e ∷ f ∷ g ∷ h ∷ i ∷ j ∷ k ∷ l ∷ m ∷ n ∷ o ∷ p ∷ q ∷ r ∷ s ∷ t ∷ u ∷ v ∷ w ∷ x
        ∷ rest)
      le z =
    (omega (arith, z), z.1.1.1.1.1.1.1.1.1.1.1.1.1.1.1.1.1.1.1.1.1.1.1.1)
decode_header-IsRead _ le z = absurd (omega arith)

parse_data-IsWell :
    (k : Ikcpcb) (new : Segment) → IsWell k → new.sn < u32_mod → IsWell (parse_data k new)
parse_data-IsWell k new w hs = elim (Bool-cases (leb k.rcv_wnd (sub32 new.sn k.rcv_nxt))) [
  | inl far ↦ subst IsWell (sym (parse_data_outside k new w.receiving hs (ground arith))) w
  | inr near ↦ moved (parse_data-Delivers k new w.receiving hs (ground arith))
]
  where
    moved : Delivers k new (parse_data k new) → IsWell (parse_data k new)
    moved (l, gone, rest, held, e, q, c, st, asc) =
        let v = subst IsReceiving q (parse_data-IsReceiving k new w.receiving hs) in
        subst IsWell (sym q) (record {
          sending = w.sending;
          receiving = v;
          run =
              moved_over-run k gone rest w.receiving.next w.receiving.queued v.queue_small w.run c;
          queue = w.queue;
          send_wnd = w.send_wnd;
          flush_time = w.flush_time;
        })

on_ack-IsWell : (k : Ikcpcb) (h : Header) → IsWell k → h.sn < u32_mod → IsWell (on_ack k h)
unfolding on_ack
on_ack-IsWell k h w hs =
    if_cases (λ x. IsWell (shrink_buf (parse_ack x h.sn))) (is_neg (itimediff k.current h.ts)) _ _
      (λ _. parse_ack-IsWell k h.sn w hs)
      (λ _.
        parse_ack-IsWell (update_ack k (sub32 k.current h.ts)) h.sn
          (update_ack-IsWell k (sub32 k.current h.ts) w) hs)

on_push-IsWell :
    (k : Ikcpcb) (h : Header) (bytes : List ℕ)
    → IsWell k
    → h.sn < u32_mod
    → IsWell (on_push k h bytes)
unfolding on_push arrived
on_push-IsWell k h bytes w hs =
    if_cases IsWell (is_neg (itimediff h.sn (add32 k.rcv_nxt k.rcv_wnd))) _ _
      (λ _.
        if_cases IsWell (is_neg (itimediff h.sn k.rcv_nxt)) _ _ (λ _. ack_push-IsWell k h.sn h.ts w)
          (λ _.
            parse_data-IsWell (ack_push k h.sn h.ts) (arrived h bytes)
              (ack_push-IsWell k h.sn h.ts w) hs))
      (λ _. w)

on_segment-IsWell :
    (k : Ikcpcb) (h : Header) (bytes : List ℕ)
    → IsWell k
    → h.sn < u32_mod
    → IsWell (on_segment k h bytes)
unfolding on_segment
on_segment-IsWell k h bytes w hs =
    commands (shrink_buf (parse_una (record k { rmt_wnd = h.wnd }) h.una)) (
      parse_una-IsWell (record k { rmt_wnd = h.wnd }) h.una
        (record {
          sending = w.sending;
          receiving = w.receiving;
          run = w.run;
          queue = w.queue;
          send_wnd = w.send_wnd;
          flush_time = w.flush_time;
        }))
  where
    commands :
        (k1 : Ikcpcb)
        → IsWell k1
        → IsWell (
            if h.cmd == cmd_ack
            then on_ack k1 h
            else if h.cmd == cmd_push
            then on_push k1 h bytes
            else if h.cmd == cmd_wask
            then record k1 { probe = bit_or k1.probe ask_tell }
            else k1)
    commands k1 v =
        if_cases IsWell (h.cmd == cmd_ack) _ _ (λ _. on_ack-IsWell k1 h v hs)
          (λ _.
            if_cases IsWell (h.cmd == cmd_push) _ _ (λ _. on_push-IsWell k1 h bytes v hs)
              (λ _.
                if_cases IsWell (h.cmd == cmd_wask) _ _
                  (λ _. record {
                    sending = v.sending;
                    receiving = v.receiving;
                    run = v.run;
                    queue = v.queue;
                    send_wnd = v.send_wnd;
                    flush_time = v.flush_time;
                  })
                  (λ _. v)))

-- The loop ends with a control block that is well formed.
abbrev EndsWell : Option Ending → Type 0
EndsWell none = Unit
EndsWell (some (stopped k e)) = IsWell k
EndsWell (some (finished k mark)) = IsWell k

All-drop : (n : ℕ) (xs : List ℕ) → All IsByte xs → All IsByte (drop n xs)
All-drop zero xs a = a
All-drop (suc n) [] a = a
All-drop (suc n) (x ∷ xs) a = All-drop n xs a.1

input_loop-IsWell :
    (fuel : ℕ) (k : Ikcpcb) (bytes : List ℕ) (size : ℕ) (mark : Option ℕ)
    → IsWell k
    → All IsByte bytes
    → size ≤ length bytes
    → EndsWell (input_loop fuel k bytes size mark)
unfolding input_loop
input_loop-IsWell zero k bytes size mark w b l = tt
input_loop-IsWell (suc fuel) k bytes size mark w b l = elim (Bool-cases (ltb size overhead)) [
  | inl done ↦ rw done w
  | inr more ↦
      let (h, rest, e, le) = decode_header_total bytes (ground arith) in
      let (hs, bs) = subst IsRead e (decode_header-IsRead bytes (ground arith) b) in
      subst EndsWell (sym (input_loop-turn fuel k bytes size mark h rest (ground arith) e)) (
        turn_cases EndsWell fuel k size mark h rest (omega arith) (λ c. w)
          (λ fits.
            input_loop-IsWell fuel (on_segment k h rest) (drop h.len rest) (size - overhead - h.len)
              (if h.cmd == cmd_ack then mark_ack mark h.sn else mark)
              (on_segment-IsWell k h rest w hs) (All-drop h.len rest bs)
              (omega (arith, length-drop h.len rest))))
]

widen-IsWell : (k : Ikcpcb) → IsWell k → IsWell (widen k)
unfolding widen
widen-IsWell k w =
    if_cases IsWell (ltb k.cwnd k.ssthresh) _ _
      (λ _. record {
        sending = w.sending;
        receiving = w.receiving;
        run = w.run;
        queue = w.queue;
        send_wnd = w.send_wnd;
        flush_time = w.flush_time;
      })
      (λ _. record {
        sending = w.sending;
        receiving = w.receiving;
        run = w.run;
        queue = w.queue;
        send_wnd = w.send_wnd;
        flush_time = w.flush_time;
      })

cap_window-IsWell : (k : Ikcpcb) → IsWell k → IsWell (cap_window k)
unfolding cap_window
cap_window-IsWell k w =
    if_cases IsWell (ltb k.rmt_wnd k.cwnd) _ _
      (λ _. record {
        sending = w.sending;
        receiving = w.receiving;
        run = w.run;
        queue = w.queue;
        send_wnd = w.send_wnd;
        flush_time = w.flush_time;
      })
      (λ _. w)

grow_window-IsWell : (una : ℕ) (k : Ikcpcb) → IsWell k → IsWell (grow_window una k)
unfolding grow_window
grow_window-IsWell una k w =
    if_cases IsWell (is_pos (itimediff k.snd_una una) && ltb k.cwnd k.rmt_wnd) _ _
      (λ _. cap_window-IsWell (widen k) (widen-IsWell k w)) (λ _. w)

skipped-IsWell : (k : Ikcpcb) (mark : Option ℕ) → IsWell k → IsWell (skipped k mark)
unfolding skipped
skipped-IsWell k none w = w
skipped-IsWell k (some maxack) w = parse_fastack-IsWell k maxack w

finish-IsWell : (una : ℕ) (e : Ending) → EndsWell (some e) → IsWell (finish una e).0
unfolding finish
finish-IsWell una (stopped k e) w = w
finish-IsWell una (finished k mark) w =
    grow_window-IsWell una (skipped k mark) (skipped-IsWell k mark w)

abbrev Keeps : Option (Ikcpcb × ℤ) → Type 0
Keeps none = Unit
Keeps (some (k, r)) = IsWell k

after_loop-IsWell : (k : Ikcpcb) (o : Option Ending) → EndsWell o → Keeps (after_loop k o)
unfolding after_loop
after_loop-IsWell k none w = tt
after_loop-IsWell k (some e) w = finish-IsWell k.snd_una e w

-- Whatever bytes arrive at a well-formed control block, forged, repeated or cut short: ikcp_input
-- of a size that the datagram has returns, and the control block is well formed again: snd_buf and
-- rcv_buf rise strictly by number from snd_una and rcv_nxt on, rcv_queue holds the numbers that
-- end before rcv_nxt without a gap, nsnd_buf, nrcv_buf and nrcv_que are the lengths of their lists
-- and nsnd_que that of the send queue in 32 bits, and the numbers in flight stay within half the
-- number space.
pub input-IsWell :
    (k : Ikcpcb) (bytes : List ℕ) (size : ℕ)
    → IsWell k
    → All IsByte bytes
    → size ≤ length bytes
    → (r : Ikcpcb × ℤ) × (input k bytes (pos size) ≡ some r) × IsWell r.0
input-IsWell k bytes size w b l =
    let (r, e) = input_total k bytes size l in
    (r, e, subst Keeps (sym (input_lem k bytes (pos size)) ∙ e) kept)
  where
    kept : Keeps (
        if too_short (pos size)
        then some (k, negsuc 0)
        else after_loop k (input_loop (suc (natural (pos size))) k bytes (natural (pos size)) none))
    kept =
        if_cases Keeps (too_short (pos size)) _ _ (λ _. w)
          (λ _. after_loop-IsWell k _ (input_loop-IsWell (suc size) k bytes size none w b l))
