-- ===== src/Send/Partial.antt =====
-- The refusal of ikcp.c:510 in stream mode.
use fiber_kcp.Prelude.{
  ℕ, ◌+◌, ◌-◌, ◌≤◌, ◌<◌, ◌≡◌, ◌≢◌, refl, ap, sym, ◌∙◌, List, [], ◌∷◌, ◌++◌, arith, length, ltb,
  true, false, some, pos, negsuc, take, drop, take-all, append-nil, append_assoc,
}
use fiber_kcp.Word.{pattern32}
use fiber_kcp.Wire.{Segment}
use fiber_kcp.Control.{Ikcpcb}
use fiber_kcp.Send.{
  send, send_bytes, send_stream, fragment_count, fragment, extend, extend_last, Extended,
}
use fiber_kcp.Send.Whole.{positive_mss, send_cut_many}
use fiber_kcp.Send.Stream.{contents-append, not_zero}
use fiber_kcp.Recv.Message.{contents, HasLen}

module _ (mss : ℕ) (buffer : List ℕ) (len : ℕ) (s : Segment) where
  extend_last_snoc :
      (q : List Segment)
      → extend_last mss buffer len (q ++ (s ∷ []))
        ≡ (let e = extend mss buffer len s in (q ++ e.0, e.1, e.2))
  unfolding extend_last
  extend_last_snoc [] = refl
  extend_last_snoc (t ∷ []) = refl
  extend_last_snoc (t ∷ u ∷ q) =
      ap (λ (e : Extended). (t ∷ e.0, e.1, e.2)) (extend_last_snoc (u ∷ q))

module _ (k : Ikcpcb) (buffer : List ℕ) (q : List Segment) (s : Segment)
    (mode : pattern32 k.stream ≢ 0) (h : 0 < k.mss) (queue : k.snd_queue ≡ q ++ (s ∷ []))
    (len : HasLen s) (short : s.len < k.mss) (long : k.mss - s.len < length buffer)
    (many : 128 ≤ fragment_count k.mss (length buffer - (k.mss - s.len))) where
  abbrev gap : ℕ
  gap = k.mss - s.len

  topped_up : Segment
  topped_up = fragment 0 (s.len + gap) (take s.len s.payload ++ take gap buffer)

  partial : Ikcpcb
  partial = record k { snd_queue = q ++ (topped_up ∷ []) }

  topped :
      extend k.mss buffer (length buffer) s ≡ (topped_up ∷ [], drop gap buffer, length buffer - gap)
  unfolding extend topped_up
  topped = rw (first, second) refl
    where
      first : ltb s.len k.mss ≡ true
      first = ground arith

      second : ltb (length buffer) (k.mss - s.len) ≡ false
      second = ground arith

  by_mode : send_bytes k buffer (pos (length buffer)) ≡ (partial, negsuc 1)
  unfolding send_bytes send_stream partial
  by_mode = rw (not_zero (pattern32 k.stream) mode) (
      rw (queue, extend_last_snoc k.mss buffer (length buffer) s q, topped)
        (rw (not_zero (length buffer - gap) (omega arith))
          (send_cut_many partial true (drop gap buffer) (length buffer - gap) many)))

  partial_bytes : contents partial.snd_queue ≡ contents k.snd_queue ++ take gap buffer
  unfolding partial topped_up fragment
  partial_bytes =
      contents-append q (topped_up ∷ [])
      ∙ ap (λ l. contents q ++ l)
          (append-nil (take s.len s.payload ++ take gap buffer)
            ∙ ap (λ l. l ++ take gap buffer) (take-all s.len s.payload (omega (arith, len))))
      ∙ sym (append_assoc (contents q) s.payload (take gap buffer))
      ∙ ap (λ l. l ++ take gap buffer) waiting
    where
      waiting : contents q ++ s.payload ≡ contents k.snd_queue
      waiting =
          ap (λ l. contents q ++ l) (sym (append-nil s.payload))
          ∙ sym (contents-append q (s ∷ []))
          ∙ ap contents (sym queue)

  -- In stream mode, when the last waiting segment holds the bytes that its length says and has
  -- room, and what does not fit into it needs 128 segments or more, ikcp_send reports -2 although
  -- the first bytes of the message, as many as the segment had room for, have gone into the queue.
  pub send_partial :
      (k' : Ikcpcb) × (send k buffer (pos (length buffer)) ≡ some (k', negsuc 1))
      × (contents k'.snd_queue ≡ contents k.snd_queue ++ take gap buffer)
  send_partial =
      (partial, positive_mss k buffer (pos (length buffer)) h ∙ ap some by_mode, partial_bytes)
