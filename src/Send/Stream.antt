-- ===== src/Send/Stream.antt =====
-- `ikcp_send` in stream mode, ikcp.c:478-536.
use fiber_kcp.Prelude.{
  ℕ, suc, ◌+◌, ◌-◌, ◌*◌, ◌^◌, ◌≤◌, ◌<◌, ◌≡◌, ◌≢◌, refl, ap, sym, ◌∙◌, List, [], ◌∷◌, ◌++◌, arith,
  length, All, All-append, ltb, true, false, Bool-cases, inl, inr, some, pos, if◌then◌else◌, ◌==◌,
  take, drop, take-all, take-append-drop, length-take, length-drop, length-append, append-nil,
  append_assoc,
}
use fiber_kcp.Word.{add32, pattern32}
use fiber_kcp.Wire.{Segment}
use fiber_kcp.Control.{Ikcpcb}
use fiber_kcp.Send.{
  send, send_bytes, send_cut, send_stream, fragment_count, cut, fragment, extend, extend_last,
  Extended,
}
use fiber_kcp.Send.Fragments.{Fits, fragment_count-Fits, cut-HasLen, cut-contents, cut-room}
use fiber_kcp.Send.Whole.{positive_mss, send_cut_few, queued}
use fiber_kcp.Recv.Message.{contents, HasLen}

-- Nothing is lost between the queue and what is still to be sent.
pub record Extends (mss : ℕ) (q : List Segment) (buffer : List ℕ) (e : Extended) : Type 0 where
  pub bytes : contents e.0 ++ e.1 ≡ contents q ++ buffer
  pub left : length e.1 ≡ e.2
  pub lens : All HasLen e.0
  pub count : length e.0 ≡ length q
  pub room : All (λ s. s.len ≤ mss) q → All (λ s. s.len ≤ mss) e.0
  pub shorter : e.2 ≤ length buffer

module _ (mss : ℕ) (buffer : List ℕ) where
  fill : (size : ℕ) (s : Segment) → Extended
  fill size s = (
    fragment 0 (s.len + size) (take s.len s.payload ++ take size buffer) ∷ [],
    drop size buffer,
    length buffer - size,
  )

  fill-Extends :
      (size : ℕ) (s : Segment)
      → size ≤ length buffer
      → s.len + size ≤ mss
      → HasLen s
      → Extends mss (s ∷ []) buffer (fill size s)
  unfolding fill fragment
  fill-Extends size s h r l = record {
    bytes =
        rw (take-all s.len s.payload (omega arith))
          (simp (append-nil, append_assoc, take-append-drop));
    left = length-drop size buffer;
    lens = (
      omega (
        arith,
        length-append (take s.len s.payload) (take size buffer),
        length-take s.len s.payload,
        length-take size buffer,
      ),
      tt,
    );
    count = refl;
    room = λ _. (r, tt);
    shorter = omega arith;
  }

  extend-Extends :
      (s : Segment) → HasLen s → Extends mss (s ∷ []) buffer (extend mss buffer (length buffer) s)
  unfolding extend fill
  extend-Extends s l = elim (Bool-cases (ltb s.len mss)) [
    | inl short ↦ rw short (
        fill-Extends (if ltb (length buffer) (mss - s.len) then length buffer else mss - s.len) s
          (ground arith) (ground arith) l)
    | inr full ↦ rw full (record {
      bytes = refl;
      left = refl;
      lens = (l, tt);
      count = refl;
      room = λ h. h;
      shorter = omega arith;
    })
  ]

  behind :
      (s : Segment) (q : List Segment) (e : Extended)
      → HasLen s
      → Extends mss q buffer e
      → Extends mss (s ∷ q) buffer (s ∷ e.0, e.1, e.2)
  behind s q e l x = record {
    bytes =
        append_assoc s.payload (contents e.0) e.1
        ∙ ap (◌++◌ s.payload) x.bytes
        ∙ sym (append_assoc s.payload (contents q) buffer);
    left = x.left;
    lens = (l, x.lens);
    count = ap suc x.count;
    room = λ h. (h.0, x.room h.1);
    shorter = x.shorter;
  }

  extend_last-Extends :
      (q : List Segment)
      → All HasLen q
      → Extends mss q buffer (extend_last mss buffer (length buffer) q)
  unfolding extend_last
  extend_last-Extends [] a = record {
    bytes = refl;
    left = refl;
    lens = tt;
    count = refl;
    room = λ h. h;
    shorter = omega arith;
  }
  extend_last-Extends (s ∷ []) a = extend-Extends s a.0
  extend_last-Extends (s ∷ t ∷ q) a =
      behind s (t ∷ q) (extend_last mss buffer (length buffer) (t ∷ q)) a.0
        (extend_last-Extends (t ∷ q) a.1)

pub not_zero : (n : ℕ) → n ≢ 0 → (n == 0) ≡ false
not_zero n ne = ground arith

pub contents-append : (a b : List Segment) → contents (a ++ b) ≡ contents a ++ contents b
contents-append [] b = refl
contents-append (s ∷ a) b =
    ap (◌++◌ s.payload) (contents-append a b)
    ∙ sym (append_assoc s.payload (contents a) (contents b))

empty : (l : List ℕ) → length l ≡ 0 → l ≡ []
empty [] e = refl
empty (x ∷ l) e = absurd (omega arith)

-- The queue carries the bytes that it carried and `buffer` behind them.
pub record Appended (k : Ikcpcb) (buffer : List ℕ) (k' : Ikcpcb) : Type 0 where
  pub bytes : contents k'.snd_queue ≡ contents k.snd_queue ++ buffer
  pub lens : All HasLen k'.snd_queue
  pub room : All (λ s. s.len ≤ k.mss) k'.snd_queue
  pub count : k'.nsnd_que ≡ add32 (length k'.snd_queue) 0

module _ (k : Ikcpcb) (buffer : List ℕ) (mode : pattern32 k.stream ≢ 0) (h : 0 < k.mss)
    (hm : k.mss < 2 ^ 31) (hl : length buffer < 2 ^ 31) (lens : All HasLen k.snd_queue)
    (room : All (λ s. s.len ≤ k.mss) k.snd_queue)
    (count : k.nsnd_que ≡ add32 (length k.snd_queue) 0) where
  ext : Extended
  ext = extend_last k.mss buffer (length buffer) k.snd_queue

  filled : Ikcpcb
  filled = record k { snd_queue = ext.0 }

  ext-Extends : Extends k.mss k.snd_queue buffer ext
  unfolding ext
  ext-Extends = extend_last-Extends k.mss buffer k.snd_queue lens

  stream_mode :
      send k buffer (pos (length buffer))
      ≡ some (if ext.2 == 0 then (filled, pos 0) else send_cut filled true ext.1 ext.2)
  unfolding ext filled send_bytes send_stream
  stream_mode = positive_mss k buffer (pos (length buffer)) h ∙ ap some by_mode
    where
      by_mode :
          send_bytes k buffer (pos (length buffer))
          ≡ (if ext.2 == 0 then (filled, pos 0) else send_cut filled true ext.1 ext.2)
      by_mode = rw (not_zero (pattern32 k.stream) mode) refl

  none_left : ext.2 ≡ 0 → Appended k buffer filled
  unfolding filled
  none_left e = record {
    bytes =
        sym (append-nil (contents ext.0))
        ∙ ap (λ l. contents ext.0 ++ l) (sym (empty ext.1 (ext-Extends.left ∙ e)))
        ∙ ext-Extends.bytes;
    lens = ext-Extends.lens;
    room = ext-Extends.room room;
    count = count ∙ ap (λ n. add32 n 0) (sym ext-Extends.count);
  }

  some_left :
      (c : ℕ)
      → Fits c k.mss ext.2
      → Appended k buffer (queued filled (cut (suc c) true k.mss ext.1 ext.2))
  unfolding filled
  some_left c f = record {
    bytes =
        contents-append ext.0 (cut (suc c) true k.mss ext.1 ext.2)
        ∙ ap (◌++◌ (contents ext.0)) (cut-contents k.mss c true ext.1 ext.2 f ext-Extends.left)
        ∙ ext-Extends.bytes;
    lens =
        All-append HasLen ext.0 _ ext-Extends.lens
          (cut-HasLen k.mss c true ext.1 ext.2 f ext-Extends.left);
    room =
        All-append (λ s. s.len ≤ k.mss) ext.0 _ (ext-Extends.room room)
          (cut-room k.mss (suc c) true ext.1 ext.2 hm f.len_int);
    count =
        omega (
          arith,
          count,
          ext-Extends.count,
          length-append ext.0 (cut (suc c) true k.mss ext.1 ext.2),
        );
  }

  -- In stream mode, with a segment size and a message below 2^31 and waiting segments that are
  -- counted, hold the bytes that their lengths say and are no longer than the segment size, a
  -- message shorter than 127 full segments is accepted: the queue then carries the bytes that
  -- waited, followed by those of the message; every segment keeps its length and within the
  -- segment size, and nsnd_que still counts them.
  pub send_appends :
      length buffer < 127 * k.mss
      → (k' : Ikcpcb) × (send k buffer (pos (length buffer)) ≡ some (k', pos 0))
        × Appended k buffer k'
  unfolding filled
  send_appends few = elim (Bool-cases (ext.2 == 0)) [
    | inl all ↦ (filled, stream_mode ∙ rw all refl, none_left (ground arith))
    | inr more ↦
        rest more (fragment_count-Fits k.mss ext.2 h hm (omega (arith, ext-Extends.shorter)))
  ]
    where
      below : (c : ℕ) → Fits c k.mss ext.2 → suc c < 128
      below c f = grind (arith, f.needed, ext-Extends.shorter)

      rest :
          (ext.2 == 0) ≡ false
          → (c : ℕ) × (fragment_count k.mss ext.2 ≡ suc c) × Fits c k.mss ext.2
          → (k' : Ikcpcb) × (send k buffer (pos (length buffer)) ≡ some (k', pos 0))
            × Appended k buffer k'
      rest more (c, e, f) = (
        queued filled (cut (suc c) true k.mss ext.1 ext.2),
        stream_mode
            ∙ rw more (ap some (send_cut_few filled true ext.1 ext.2 (suc c) e (below c f))),
        some_left c f,
      )
