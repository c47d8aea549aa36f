-- ===== src/Send/Safe.antt =====
-- The invariant of a control block behind `ikcp_send`.
use fiber_kcp.Prelude.{
  ℕ, suc, ap, ltb, [], ◌∷◌, length, length-append, ◌≡◌, refl, arith, sym, ◌∙◌, subst, leb, ◌==◌,
  Bool, true, false, if_cases, List, Option, none, some, ℤ, pos, negsuc, if◌then◌else◌,
}
use fiber_kcp.Word.{pattern32}
use fiber_kcp.Wire.{Segment}
use fiber_kcp.Control.{Ikcpcb, wnd_rcv}
use fiber_kcp.Ack.Safe.{IsWell}
use fiber_kcp.Send.{
  send, send_bytes, send_cut, send_stream, fragment_count, cut, extend, extend_last,
}
use fiber_kcp.Send.Fragments.{length-cut}

send_cut-IsWell :
    (k : Ikcpcb) (b : Bool) (buffer : List ℕ) (len : ℕ)
    → IsWell k
    → IsWell (send_cut k b buffer len).0
unfolding send_cut
send_cut-IsWell k b buffer len w =
    if_cases (λ (r : Ikcpcb × ℤ). IsWell r.0) (leb wnd_rcv (fragment_count k.mss len)) _ _ (λ _. w)
      (λ _. record {
        sending = w.sending;
        receiving = w.receiving;
        run = w.run;
        queue = omega (
          arith,
          w.queue,
          length-append k.snd_queue (cut (fragment_count k.mss len) b k.mss buffer len),
          length-cut k.mss (fragment_count k.mss len) b buffer len,
        );
        send_wnd = w.send_wnd;
        flush_time = w.flush_time;
      })

length-extend_last :
    (mss len : ℕ) (buffer : List ℕ) (q : List Segment)
    → length (extend_last mss buffer len q).0 ≡ length q
unfolding extend_last extend
length-extend_last mss len buffer [] = refl
length-extend_last mss len buffer (s ∷ []) =
    if_cases (λ (e : List Segment × List ℕ × ℕ). length e.0 ≡ 1) (ltb s.len mss) _ _ (λ _. refl)
      (λ _. refl)
length-extend_last mss len buffer (s ∷ t ∷ q) = ap suc (length-extend_last mss len buffer (t ∷ q))

requeued :
    (k : Ikcpcb) (q : List Segment)
    → length q ≡ length k.snd_queue
    → IsWell k
    → IsWell (record k { snd_queue = q })
requeued k q l w = record {
  sending = w.sending;
  receiving = w.receiving;
  run = w.run;
  queue = omega (arith, w.queue, l);
  send_wnd = w.send_wnd;
  flush_time = w.flush_time;
}

send_stream-IsWell :
    (k : Ikcpcb) (buffer : List ℕ) (len : ℕ) → IsWell k → IsWell (send_stream k buffer len).0
unfolding send_stream
send_stream-IsWell k buffer len w =
    let e = extend_last k.mss buffer len k.snd_queue in
    let l = length-extend_last k.mss len buffer k.snd_queue in
    if_cases (λ (r : Ikcpcb × ℤ). IsWell r.0) (e.2 == 0) _ _ (λ _. requeued k e.0 l w)
      (λ _. send_cut-IsWell (record k { snd_queue = e.0 }) true e.1 e.2 (requeued k e.0 l w))

send_bytes-IsWell :
    (k : Ikcpcb) (buffer : List ℕ) (len : ℤ) → IsWell k → IsWell (send_bytes k buffer len).0
unfolding send_bytes
send_bytes-IsWell k buffer (negsuc n) w = w
send_bytes-IsWell k buffer (pos len) w =
    if_cases (λ (r : Ikcpcb × ℤ). IsWell r.0) (pattern32 k.stream == 0) _ _
      (λ _. send_cut-IsWell k false buffer len w) (λ _. send_stream-IsWell k buffer len w)

abbrev Keeps : Option (Ikcpcb × ℤ) → Type 0
Keeps none = Unit
Keeps (some r) = IsWell r.0

send_lem :
    (k : Ikcpcb) (buffer : List ℕ) (len : ℤ)
    → send k buffer len ≡ (if k.mss == 0 then none else some (send_bytes k buffer len))
unfolding send
send_lem k buffer len = refl

-- `ikcp_send` of anything, accepted or not, keeps both sides well formed.
pub send-IsWell :
    (k : Ikcpcb) (buffer : List ℕ) (len : ℤ) (r : Ikcpcb × ℤ)
    → IsWell k
    → send k buffer len ≡ some r
    → IsWell r.0
send-IsWell k buffer len r w e =
    subst Keeps (sym (send_lem k buffer len) ∙ e)
      (if_cases Keeps (k.mss == 0) _ _ (λ _. tt) (λ _. send_bytes-IsWell k buffer len w))
