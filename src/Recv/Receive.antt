-- ===== src/Recv/Receive.antt =====
-- `ikcp_recv` as its caller sees it.
use fiber_kcp.Prelude.{
  ℕ, ◌+◌, ◌-◌, ◌^◌, ◌≤◌, ◌<◌, ◌≡◌, refl, ap, sym, ◌∙◌, inl, inr, List, [], ◌∷◌, ◌++◌, arith, length,
  All, ltb, Bool, Bool-cases, true, false, some, ℤ, pos, is_neg, not, length-append, ◌&&◌,
}
use fiber_kcp.Word.{u32_mod, add32, signed32}
use fiber_kcp.Wire.{Segment}
use fiber_kcp.Control.{Ikcpcb}
use fiber_kcp.Recv.{
  Merged, move_ready, merge, peek_queue, peeksize, recv, recv_from, Received, deliver, recover,
}
use fiber_kcp.Recv.Moves.{Consecutive, IsSettled, Moves}
use fiber_kcp.Recv.Arrival.{IsReceiving, ready-Moves, move_ready-IsReceiving}
use fiber_kcp.Recv.Message.{
  IsMessage, total, contents, HasLen, IsWhole, merge-message, peek_queue-message, deliver_lem,
  delivered, peeked-merge, recv_from-Ends,
}

module _ (k : Ikcpcb) (buffer : Bool) (len : ℤ) where
  recv_from_total :
      (q : List Segment)
      → k.rcv_queue ≡ q
      → All (λ s. s.len < u32_mod) q
      → (r : Received) × (recv_from k buffer len q ≡ some r)
  unfolding recv_from
  recv_from_total [] e a = (_, refl)
  recv_from_total (s ∷ q) e a = elim (recv_from-Ends k buffer len s q) [
    | inl (n, x) ↦ (_, x)
    | inr y ↦ elim y [
      | inl (n, x) ↦ (_, x)
      | inr (n, x) ↦ (
        _,
        x
            ∙ deliver_lem k (is_neg len) buffer (peeksize k)
                (peeked-merge k (is_neg len) buffer s q e a.0 n),
      )
    ]
  ]

  -- ikcp_recv always returns: its assertion that the merged length is the peeked one holds,
  -- whatever is queued, as long as lengths are 32-bit words.
  pub recv_total :
      All (λ s. s.len < u32_mod) k.rcv_queue → (r : Received) × (recv k buffer len ≡ some r)
  unfolding recv
  recv_total a = recv_from_total k.rcv_queue refl a

  refused :
      (q : List Segment) (r : Received)
      → k.rcv_queue ≡ q
      → All (λ s. s.len < u32_mod) q
      → recv_from k buffer len q ≡ some r
      → is_neg r.result ≡ true
      → (r.block ≡ k) × (r.out ≡ [])
  unfolding recv_from
  refused [] r e a h n = ground arith
  refused (s ∷ q) r e a h n = elim (recv_from-Ends k buffer len s q) [
    | inl (p, x) ↦ ground (arith, sym h ∙ x)
    | inr y ↦ elim y [
      | inl (p, x) ↦ ground (arith, sym h ∙ x)
      | inr (p, x) ↦ absurd (
          contradiction p (
            sym h
            ∙ x
            ∙ deliver_lem k (is_neg len) buffer (peeksize k)
                (peeked-merge k (is_neg len) buffer s q e a.0 p)))
    ]
  ]
    where
      contradiction :
          {b : Ikcpcb} {o : List ℕ}
          → is_neg (peeksize k) ≡ false
          → some r ≡ some (record { block = b; result = peeksize k; out = o })
          → ⊥
      contradiction p e = cc

  -- A refused ikcp_recv, of a queue whose lengths are 32-bit words, leaves the control block as it
  -- was and copies nothing.
  pub recv_refused :
      (r : Received)
      → All (λ s. s.len < u32_mod) k.rcv_queue
      → recv k buffer len ≡ some r
      → is_neg r.result ≡ true
      → (r.block ≡ k) × (r.out ≡ [])
  unfolding recv
  recv_refused r a h n = refused k.rcv_queue r refl a h n

-- The message is out, and what `rcv_buf` could continue the queue with has moved up.
abbrev pub Takes : Ikcpcb → List Segment → List Segment → Received → Type 0
Takes k msg rest r =
    (r.result ≡ pos (total msg))
    × (r.out ≡ contents msg)
    × IsReceiving r.block
    × ((moved : List Segment) × (r.block.rcv_queue ≡ rest ++ moved)
        × Consecutive k.rcv_nxt moved
        × (r.block.rcv_nxt ≡ add32 k.rcv_nxt (length moved))
        × (k.rcv_buf ≡ moved ++ r.block.rcv_buf)
        × IsSettled r.block)

module _ (k : Ikcpcb) (msg rest : List Segment) (r : IsReceiving k)
    (q : k.rcv_queue ≡ msg ++ rest) where
  abbrev shorter : Ikcpcb
  shorter = record k { rcv_queue = rest; nrcv_que = k.nrcv_que - length msg }

  queue_length : k.nrcv_que ≡ length msg + length rest
  queue_length = omega (arith, r.queued, ap length q, length-append msg rest)

  shorter-IsReceiving : IsReceiving shorter
  shorter-IsReceiving = record {
    next = r.next;
    window = r.window;
    queued = omega (arith, queue_length);
    queue_small = omega (arith, r.queue_small);
    buffered = r.buffered;
    ordered = r.ordered;
  }

  recovered : (b : Bool) (k' : Ikcpcb) → IsReceiving k' → IsReceiving (recover b k')
  unfolding recover
  recovered b k' h = elim (Bool-cases (ltb k'.nrcv_que k'.rcv_wnd && b)) [
    | inl c ↦ rw c (record {
      next = h.next;
      window = h.window;
      queued = h.queued;
      queue_small = h.queue_small;
      buffered = h.buffered;
      ordered = h.ordered;
    })
    | inr c ↦ rw c h
  ]

  recover_same :
      (b : Bool) (k' : Ikcpcb)
      → ((recover b k').rcv_queue ≡ k'.rcv_queue)
        × ((recover b k').rcv_nxt ≡ k'.rcv_nxt)
        × ((recover b k').rcv_buf ≡ k'.rcv_buf)
        × (IsSettled k' → IsSettled (recover b k'))
  unfolding recover
  recover_same b k' = elim (Bool-cases (ltb k'.nrcv_que k'.rcv_wnd && b)) [
    | inl c ↦ rw c (refl, refl, refl, λ s. s)
    | inr c ↦ rw c (refl, refl, refl, λ s. s)
  ]

  taken :
      (b : Bool)
      → Moves shorter k.rcv_buf (move_ready shorter k.rcv_buf)
      → Takes k msg rest (record {
        block = recover b (move_ready shorter k.rcv_buf);
        result = pos (total msg);
        out = contents msg;
      })
  taken b (moved, stay, e, x, c, st, small) = (
    refl,
    refl,
    recovered b _ (move_ready-IsReceiving shorter shorter-IsReceiving),
    (
      moved,
      (recover_same b (move_ready shorter k.rcv_buf)).0 ∙ ap (λ (y : Ikcpcb). y.rcv_queue) x,
      c,
      (recover_same b (move_ready shorter k.rcv_buf)).1 ∙ ap (λ (y : Ikcpcb). y.rcv_nxt) x,
      e
          ∙ ap (λ l. moved ++ l)
              (sym (
                (recover_same b (move_ready shorter k.rcv_buf)).2
                ∙ ap (λ (y : Ikcpcb). y.rcv_buf) x)),
      (recover_same b (move_ready shorter k.rcv_buf)).3 st,
    ),
  )

  large_enough :
      (msg' : List Segment) (len : ℕ)
      → IsMessage msg'
      → peeksize k ≡ pos (total msg)
      → total msg ≤ len
      → recv_from k true (pos len) (msg' ++ rest) ≡ deliver k false true (peeksize k)
  unfolding recv_from
  large_enough [] len m p l = elim m [ ]
  large_enough (s ∷ x) len m p l = elim (recv_from-Ends k true (pos len) s (x ++ rest)) [
    | inl (n, z) ↦ absurd (ground (arith, p, n))
    | inr y ↦ elim y [ inl (n, z) ↦ absurd (ground (arith, p, n)) | inr (n, z) ↦ z ]
  ]

  -- ikcp_recv with a buffer that is large enough, on a well-formed receiver whose queue starts
  -- with all fragments of a message, each with the bytes that its length says and fewer than 2^31
  -- together: the result is the length of the message, the buffer holds the bytes of its fragments
  -- in order, the rest of the queue moves up and is followed by the segments from the head of
  -- rcv_buf that continue it, which leave rcv_buf, until the next number is missing or the queue
  -- is full, and the receiving side stays well formed.
  pub recv_message :
      (len : ℕ)
      → IsMessage msg
      → All HasLen msg
      → total msg < 2 ^ 31
      → IsWhole msg k.nrcv_que
      → total msg ≤ len
      → (got : Received) × (recv k true (pos len) ≡ some got) × Takes k msg rest got
  unfolding recv peeksize
  recv_message len m h t w l = (
    _,
    ap (recv_from k true (pos len)) q
        ∙ large_enough msg len m peek l
        ∙ deliver_lem k false true (peeksize k)
            (peek ∙ signed ∙ ap (λ (x : Merged). signed32 x.len) (sym merged))
        ∙ (λ i. some (record {
          block = delivered k false (merged i);
          result = peek i;
          out = (merged i).out;
        })),
    taken (not (ltb k.nrcv_que k.rcv_wnd)) (ready-Moves shorter shorter-IsReceiving),
  )
    where
      peek : peeksize k ≡ pos (total msg)
      peek = ap (peek_queue k) q ∙ peek_queue-message k msg rest m t w r.queue_small

      merged : merge false true [] 0 k.nrcv_que k.rcv_queue ≡ record {
        out = contents msg;
        len = 0 + total msg;
        nrcv_que = k.nrcv_que - length msg;
        rest = rest;
      }
      merged =
          ap (merge false true [] 0 k.nrcv_que) q
          ∙ merge-message msg rest [] 0 k.nrcv_que m h (omega arith) (omega (arith, queue_length))
              (omega (arith, r.queue_small))

      signed : pos (total msg) ≡ signed32 (0 + total msg)
      signed = ground arith
