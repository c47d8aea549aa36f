-- ===== src/Recv/Safe.antt =====
-- The invariant of a control block behind `ikcp_recv`.
use fiber_kcp.Prelude.{
  ℕ, ◌^◌, ◌<◌, ◌≡◌, refl, arith, sym, ◌∙◌, subst, ltb, ◌==◌, ◌&&◌, ◌||◌, Bool, true, false, not,
  if_cases, if◌then◌else◌, List, [], ◌∷◌, ◌++◌, take, length, Option, none, some, ℤ, is_neg, neg_ℤ,
  ltb_ℤ,
}
use fiber_kcp.Word.{u32_mod, add32, sub32, signed32}
use fiber_kcp.Wire.{Segment}
use fiber_kcp.Control.{Ikcpcb}
use fiber_kcp.Ack.Safe.{IsWell}
use fiber_kcp.Recv.{
  merge, Merged, recover, move_ready, deliver, recv_from, recv, Received, peeksize,
}
use fiber_kcp.Recv.Moves.{Consecutive, Moves, moved_over-run}
use fiber_kcp.Recv.Arrival.{IsReceiving, ready-Moves, move_ready-IsReceiving}

-- The count follows what the merging loop takes out.
merge-counted :
    (buffer : Bool) (out : List ℕ) (len que : ℕ) (q : List Segment)
    → que ≡ length q
    → que < 2 ^ 31
    → ((merge false buffer out len que q).nrcv_que ≡ length (merge false buffer out len que q).rest)
      × ((merge false buffer out len que q).nrcv_que < 2 ^ 31)
unfolding merge
merge-counted buffer out len que [] e h = (e, h)
merge-counted buffer out len que (s ∷ q) e h =
    if_cases (λ (m : Merged). (m.nrcv_que ≡ length m.rest) × (m.nrcv_que < 2 ^ 31)) (s.frg == 0) _ _
      (λ _. (omega (arith, e, h), omega (arith, e, h)))
      (λ _.
        merge-counted buffer (if buffer then out ++ take s.len s.payload else out) (add32 len s.len)
          (sub32 que 1) q (omega (arith, e, h)) (omega (arith, e, h)))

merge-peeked :
    (buffer : Bool) (out : List ℕ) (len que : ℕ) (q : List Segment)
    → (merge true buffer out len que q).nrcv_que ≡ que
unfolding merge
merge-peeked buffer out len que [] = refl
merge-peeked buffer out len que (s ∷ q) =
    if_cases (λ (m : Merged). m.nrcv_que ≡ que) (s.frg == 0) _ _ (λ _. refl)
      (λ _.
        merge-peeked buffer (if buffer then out ++ take s.len s.payload else out) (add32 len s.len)
          que q)

-- What is left in the queue runs up to the next number still.
merge-run :
    (buffer : Bool) (out : List ℕ) (len que nxt : ℕ) (q : List Segment)
    → que ≡ length q
    → que < 2 ^ 31
    → nxt < u32_mod
    → Consecutive (sub32 nxt que) q
    → let m = merge false buffer out len que q in Consecutive (sub32 nxt m.nrcv_que) m.rest
unfolding merge
merge-run buffer out len que nxt [] e h hn c = tt
merge-run buffer out len que nxt (s ∷ q) e h hn c =
    let one : add32 (sub32 nxt que) 1 ≡ sub32 nxt (sub32 que 1) = omega (arith, e, h, hn) in
    let c' = subst (λ n. Consecutive n q) one c.1 in
    if_cases (λ (m : Merged). Consecutive (sub32 nxt m.nrcv_que) m.rest) (s.frg == 0) _ _ (λ _. c')
      (λ _.
        merge-run buffer (if buffer then out ++ take s.len s.payload else out) (add32 len s.len)
          (sub32 que 1) nxt q (omega (arith, e, h)) (omega (arith, e, h)) hn c')

-- The queue behind the merging loop.
abbrev merged : Ikcpcb → Bool → Merged → Ikcpcb
merged k peek m = record k {
  rcv_queue = if peek then k.rcv_queue else m.rest;
  nrcv_que = m.nrcv_que;
}

merged-IsWell :
    (k : Ikcpcb) (peek buffer : Bool)
    → IsWell k
    → IsWell (merged k peek (merge peek buffer [] 0 k.nrcv_que k.rcv_queue))
merged-IsWell k true buffer w = record {
  run =
      subst (λ n. Consecutive (sub32 k.rcv_nxt n) k.rcv_queue)
        (sym (merge-peeked buffer [] 0 k.nrcv_que k.rcv_queue)) w.run;
  sending = w.sending;
  queue = w.queue;
  send_wnd = w.send_wnd;
  flush_time = w.flush_time;
  receiving = record {
    next = w.receiving.next;
    window = w.receiving.window;
    queued = merge-peeked buffer [] 0 k.nrcv_que k.rcv_queue ∙ w.receiving.queued;
    queue_small =
        omega (arith, merge-peeked buffer [] 0 k.nrcv_que k.rcv_queue, w.receiving.queue_small);
    buffered = w.receiving.buffered;
    ordered = w.receiving.ordered;
  };
}
merged-IsWell k false buffer w = record {
  run =
      merge-run buffer [] 0 k.nrcv_que k.rcv_nxt k.rcv_queue w.receiving.queued
        w.receiving.queue_small w.receiving.next w.run;
  sending = w.sending;
  queue = w.queue;
  send_wnd = w.send_wnd;
  flush_time = w.flush_time;
  receiving = record {
    next = w.receiving.next;
    window = w.receiving.window;
    queued =
        (merge-counted buffer [] 0 k.nrcv_que k.rcv_queue w.receiving.queued
          w.receiving.queue_small).0;
    queue_small =
        (merge-counted buffer [] 0 k.nrcv_que k.rcv_queue w.receiving.queued
          w.receiving.queue_small).1;
    buffered = w.receiving.buffered;
    ordered = w.receiving.ordered;
  };
}

move_ready-IsWell : (k : Ikcpcb) → IsWell k → IsWell (move_ready k k.rcv_buf)
move_ready-IsWell k w = go (ready-Moves k w.receiving)
  where
    go : Moves k k.rcv_buf (move_ready k k.rcv_buf) → IsWell (move_ready k k.rcv_buf)
    go (moved, rest, e, q, c, st, b) =
        let v = subst IsReceiving q (move_ready-IsReceiving k w.receiving) in
        subst IsWell (sym q) (record {
          sending = w.sending;
          queue = w.queue;
          send_wnd = w.send_wnd;
          flush_time = w.flush_time;
          receiving = v;
          run =
              moved_over-run k moved rest w.receiving.next w.receiving.queued v.queue_small w.run c;
        })

recover-IsWell : (b : Bool) (k : Ikcpcb) → IsWell k → IsWell (recover b k)
unfolding recover
recover-IsWell b k w =
    if_cases IsWell (ltb k.nrcv_que k.rcv_wnd && b) _ _
      (λ _. record {
        sending = w.sending;
        receiving = w.receiving;
        run = w.run;
        queue = w.queue;
        send_wnd = w.send_wnd;
        flush_time = w.flush_time;
      })
      (λ _. w)

abbrev Keeps : Option Received → Type 0
Keeps none = Unit
Keeps (some r) = IsWell r.block

deliver-IsWell :
    (k : Ikcpcb) (peek buffer : Bool) (peeked : ℤ) → IsWell k → Keeps (deliver k peek buffer peeked)
unfolding deliver
deliver-IsWell k peek buffer peeked w =
    let m = merge peek buffer [] 0 k.nrcv_que k.rcv_queue in
    if_cases Keeps (ltb_ℤ (signed32 m.len) peeked || ltb_ℤ peeked (signed32 m.len)) _ _ (λ _. tt)
      (λ _.
        recover-IsWell (not (ltb k.nrcv_que k.rcv_wnd)) _
          (move_ready-IsWell (merged k peek m) (merged-IsWell k peek buffer w)))

recv_from-IsWell :
    (k : Ikcpcb) (buffer : Bool) (len : ℤ) (q : List Segment)
    → IsWell k
    → Keeps (recv_from k buffer len q)
unfolding recv_from
recv_from-IsWell k buffer len [] w = w
recv_from-IsWell k buffer len (s ∷ q) w =
    if_cases Keeps (is_neg (peeksize k)) _ _ (λ _. w)
      (λ _.
        if_cases Keeps (ltb_ℤ (if is_neg len then neg_ℤ len else len) (peeksize k)) _ _ (λ _. w)
          (λ _. deliver-IsWell k (is_neg len) buffer (peeksize k) w))

recv_lem :
    (k : Ikcpcb) (buffer : Bool) (len : ℤ) → recv k buffer len ≡ recv_from k buffer len k.rcv_queue
unfolding recv
recv_lem k buffer len = refl

-- `ikcp_recv`, refused, peeking or taking, keeps both sides well formed.
pub recv-IsWell :
    (k : Ikcpcb) (buffer : Bool) (len : ℤ) (r : Received)
    → IsWell k
    → recv k buffer len ≡ some r
    → IsWell r.block
recv-IsWell k buffer len r w e =
    subst Keeps (sym (recv_lem k buffer len) ∙ e) (recv_from-IsWell k buffer len k.rcv_queue w)
