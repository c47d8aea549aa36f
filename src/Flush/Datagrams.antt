-- ===== src/Flush/Datagrams.antt =====
-- What `ikcp_flush` hands to the output callback.
use Prim.Native.Nat.{bit_and}
use fiber_kcp.Prelude.{
  ℕ, zero, suc, ◌+◌, ◌^◌, ◌≤◌, ◌<◌, ◌≡◌, refl, arith, sym, subst, ◌==◌, List, [], ◌∷◌, ◌++◌, All,
  All-append, length, length-append, length-take, take, is_neg, if_cases, false,
}
use fiber_kcp.Word.{add32, sub32, gt_int, itimediff}
use fiber_kcp.Wire.{Segment, encode_seg}
use fiber_kcp.Wire.RoundTrip.{length-encode_seg}
use fiber_kcp.Control.{Ikcpcb, overhead, ask_send, ask_tell, cmd_wask, cmd_wins}
use fiber_kcp.Flush.{
  flush, flush_control, flush_segments, flush_acks, flush_probe, fill_window, number, template,
  send_window, wnd_unused, resend_limit, least_rto,
}
use fiber_kcp.Flush.Out.{hand_out, make_room, write, put_header, Output}
use fiber_kcp.Flush.Data.{
  flush_data, flush_one, put_data, note, retime, stamp, reason, Reason, first, timeout, skipped,
  idle, Round,
}
use fiber_kcp.Flush.Outcome.{flush_lem, plan_probe_sets, control_sets}

-- A datagram that is not empty and no longer than the MTU.
abbrev pub IsDatagram : ℕ → List ℕ → Type 0
IsDatagram mtu d = (0 < length d) × (length d ≤ mtu)

abbrev IsPacked : ℕ → Output → Type 0
IsPacked mtu o = (length o.held ≤ mtu) × All (IsDatagram mtu) o.sent

hand_out-IsPacked :
    (mtu : ℕ) (held : List ℕ) (sent : List (List ℕ))
    → IsPacked mtu (record { held = held; sent = sent })
    → IsPacked mtu (hand_out (record { held = held; sent = sent }))
unfolding hand_out
hand_out-IsPacked mtu [] sent p = (omega arith, p.1)
hand_out-IsPacked mtu (b ∷ bs) sent p =
    (omega arith, All-append (IsDatagram mtu) sent ((b ∷ bs) ∷ []) p.1 ((omega arith, p.0), tt))

hand_out-held : (o : Output) → length (hand_out o).held ≡ 0
unfolding hand_out
hand_out-held o = refl

-- Bytes that the MTU holds go out whole: in front of them what is held goes out, if they do not fit.
put-IsPacked :
    (mtu need : ℕ) (bytes : List ℕ) (o : Output)
    → mtu < 2 ^ 30
    → length bytes ≤ need
    → need ≤ mtu
    → IsPacked mtu o
    → IsPacked mtu (write bytes (make_room mtu need o))
unfolding make_room write
put-IsPacked mtu need bytes o hm hb hn p =
    if_cases (λ o'. IsPacked mtu (record o' { held = o'.held ++ bytes }))
      (gt_int (add32 (length o.held) need) mtu) _ _
      (λ full. (
        omega (arith, length-append (hand_out o).held bytes, hand_out-held o),
        (hand_out-IsPacked mtu o.held o.sent p).1,
      ))
      (λ fits. (omega (arith, length-append o.held bytes, room fits), p.1))
  where
    room : gt_int (add32 (length o.held) need) mtu ≡ false → length o.held + need ≤ mtu
    room e = ground (arith, p.0)

put_header-IsPacked :
    (mtu : ℕ) (s : Segment) (o : Output)
    → mtu < 2 ^ 30
    → overhead ≤ mtu
    → IsPacked mtu o
    → IsPacked mtu (put_header mtu s o)
unfolding put_header
put_header-IsPacked mtu s o hm ho p =
    put-IsPacked mtu overhead (encode_seg s) o hm (omega (arith, length-encode_seg s)) ho p

flush_acks-IsPacked :
    (n i : ℕ) (k : Ikcpcb) (seg : Segment) (o : Output)
    → k.mtu < 2 ^ 30
    → overhead ≤ k.mtu
    → IsPacked k.mtu o
    → IsPacked k.mtu (flush_acks n i k seg o).1
unfolding flush_acks
flush_acks-IsPacked zero i k seg o hm ho p = p
flush_acks-IsPacked (suc n) i k seg o hm ho p =
    flush_acks-IsPacked n (i + 1) k _ _ hm ho (put_header-IsPacked k.mtu _ o hm ho p)

flush_probe-IsPacked :
    (k : Ikcpcb) (ask cmd : ℕ) (seg : Segment) (o : Output)
    → k.mtu < 2 ^ 30
    → overhead ≤ k.mtu
    → IsPacked k.mtu o
    → IsPacked k.mtu (flush_probe k ask cmd seg o)
unfolding flush_probe
flush_probe-IsPacked k ask cmd seg o hm ho p =
    if_cases (IsPacked k.mtu) (bit_and k.probe ask == 0) _ _ (λ _. p)
      (λ _. put_header-IsPacked k.mtu _ o hm ho p)

-- Segments whose bytes, with a header, fit a datagram.
abbrev pub Fit : ℕ → List Segment → Type 0
Fit mtu = All (λ s. s.len + overhead ≤ mtu)

flush_one-IsPacked :
    (k : Ikcpcb) (wnd resent rtomin : ℕ) (why : Reason) (s : Segment) (r : Round)
    → k.mtu < 2 ^ 30
    → s.len + overhead ≤ k.mtu
    → IsPacked k.mtu r.out
    → IsPacked k.mtu (flush_one k wnd resent rtomin why s r).1.out
unfolding flush_one retime stamp put_data note
flush_one-IsPacked k wnd resent rtomin why s r hm h p = sent why
  where
    data_fits :
        (s' : Segment)
        → s'.len ≡ s.len
        → IsPacked k.mtu (
            write
              (encode_seg s' ++ take s'.len s'.payload)
              (make_room k.mtu (add32 overhead s'.len) r.out))
    data_fits s' e =
        put-IsPacked k.mtu (add32 overhead s'.len) (encode_seg s' ++ take s'.len s'.payload) r.out
          hm
          (omega (
            arith,
            length-append (encode_seg s') (take s'.len s'.payload),
            length-encode_seg s',
            length-take s'.len s'.payload,
          ))
          (omega arith) p

    sent : (why : Reason) → IsPacked k.mtu (flush_one k wnd resent rtomin why s r).1.out
    sent first = data_fits _ refl
    sent timeout = data_fits _ refl
    sent skipped = data_fits _ refl
    sent idle = p

flush_data-IsPacked :
    (k : Ikcpcb) (wnd resent rtomin : ℕ) (buf : List Segment) (r : Round)
    → k.mtu < 2 ^ 30
    → Fit k.mtu buf
    → IsPacked k.mtu r.out
    → IsPacked k.mtu (flush_data k wnd resent rtomin buf r).1.out
unfolding flush_data
flush_data-IsPacked k wnd resent rtomin [] r hm h p = p
flush_data-IsPacked k wnd resent rtomin (s ∷ buf) r hm h p =
    flush_data-IsPacked k wnd resent rtomin buf _ hm h.1
      (flush_one-IsPacked k wnd resent rtomin (reason k resent s) s r hm h.0 p)

-- What holds of the segments as they enter the buffer.
abbrev Filled : ℕ → Ikcpcb → Type 0
Filled mtu k = (k.mtu ≡ mtu) × Fit mtu k.snd_buf

fill_window-Fit :
    (mtu cwnd wnd : ℕ) (k : Ikcpcb) (q : List Segment)
    → Filled mtu k
    → Fit mtu q
    → Filled mtu (fill_window cwnd wnd k q)
unfolding fill_window number
fill_window-Fit mtu cwnd wnd k [] f h = (f.0, f.1)
fill_window-Fit mtu cwnd wnd k (s ∷ q) f h =
    if_cases (Filled mtu) (is_neg (itimediff k.snd_nxt (add32 k.snd_una cwnd))) _ _
      (λ _.
        fill_window-Fit mtu cwnd wnd
          (record k {
            snd_buf = k.snd_buf ++ (number k wnd s ∷ []);
            nsnd_que = sub32 k.nsnd_que 1;
            nsnd_buf = add32 k.nsnd_buf 1;
            snd_nxt = add32 k.snd_nxt 1;
          })
          q (f.0, All-append (λ s. s.len + overhead ≤ mtu) k.snd_buf _ f.1 (h.0, tt)) h.1)
      (λ _. f)

segments-datagrams :
    (k : Ikcpcb) (o : Output)
    → k.mtu < 2 ^ 30
    → Fit k.mtu k.snd_buf
    → Fit k.mtu k.snd_queue
    → IsPacked k.mtu o
    → All (IsDatagram k.mtu) (flush_segments k o).1
unfolding flush_segments
segments-datagrams k o hm hb hq p =
    (hand_out-IsPacked k.mtu _ _ (
      subst (λ n. IsPacked n out) f.0
        (flush_data-IsPacked k1 (wnd_unused k) (resend_limit k1) (least_rto k1) k1.snd_buf
          (record { xmit = k1.xmit; state = k1.state; lost = false; change = 0; out = o })
          (omega (arith, f.0)) (subst (λ n. Fit n k1.snd_buf) (sym f.0) f.1)
          (subst (λ n. IsPacked n o) (sym f.0) p)))).1
  where
    k1 : Ikcpcb
    k1 = fill_window (send_window k) (wnd_unused k) k k.snd_queue

    f : Filled k.mtu k1
    f = fill_window-Fit k.mtu (send_window k) (wnd_unused k) k k.snd_queue (refl, hb) hq

    out : Output
    out =
        (flush_data k1 (wnd_unused k) (resend_limit k1) (least_rto k1) k1.snd_buf
          (record { xmit = k1.xmit; state = k1.state; lost = false; change = 0; out = o })).1.out

control-IsPacked :
    (k : Ikcpcb) → k.mtu < 2 ^ 30 → overhead ≤ k.mtu → IsPacked k.mtu (flush_control k).1
unfolding flush_control
control-IsPacked k hm ho =
    let (w, t, p, e) = plan_probe_sets (record k { ackcount = 0 }) in
    let k1 : Ikcpcb = record k { ackcount = 0; probe_wait = w; ts_probe = t; probe = p } in
    rw e (
      flush_probe-IsPacked k1 ask_tell cmd_wins _ _ hm ho (
        flush_probe-IsPacked k1 ask_send cmd_wask _ _ hm ho
          (flush_acks-IsPacked k.ackcount 0 k (template k) _ hm ho (omega arith, tt))))

-- Every datagram that ikcp_flush hands to the output callback holds at least one byte and at most
-- an MTU of them, if the MTU is below 2^30 and takes a header and every queued segment fits it
-- with one.
pub flush_datagrams :
    (k : Ikcpcb)
    → k.mtu < 2 ^ 30
    → overhead ≤ k.mtu
    → Fit k.mtu k.snd_buf
    → Fit k.mtu k.snd_queue
    → All (IsDatagram k.mtu) (flush k).1
flush_datagrams k hm ho hb hq =
    subst (λ (r : Ikcpcb × List (List ℕ)). All (IsDatagram k.mtu) r.1) (sym (flush_lem k))
      (if_cases (λ (r : Ikcpcb × List (List ℕ)). All (IsDatagram k.mtu) r.1) (k.updated == 0) _ _
        (λ _. tt)
        (λ _.
          let (w, t, e) = control_sets k in
          subst (λ x. All (IsDatagram k.mtu) (flush_segments x (flush_control k).1).1) (sym e)
            (segments-datagrams (record k { ackcount = 0; probe_wait = w; ts_probe = t; probe = 0 })
              (flush_control k).1 hm hb hq (control-IsPacked k hm ho))))
