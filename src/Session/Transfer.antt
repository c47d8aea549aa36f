-- ===== src/Session/Transfer.antt =====
-- A message from `ikcp_send` on one side to `ikcp_recv` on the other.
use fiber_kcp.Prelude.{
  ℕ, zero, suc, ◌+◌, ◌-◌, ◌^◌, ◌≤◌, ◌<◌, ◌≡◌, refl, arith, ap, sym, ◌∙◌, subst, List, [], ◌∷◌, ◌++◌,
  All, length, some, ℤ, pos, true, append-nil, append_cancel_left, some-injective,
}
use fiber_kcp.Word.{u32_mod, add32, sub32, pattern32}
use fiber_kcp.Wire.{Segment}
use fiber_kcp.Control.{Ikcpcb}
use fiber_kcp.Recv.{recv, Received}
use fiber_kcp.Recv.Order.{HasSn}
use fiber_kcp.Recv.Moves.{Consecutive}
use fiber_kcp.Recv.Arrival.{IsReceiving}
use fiber_kcp.Recv.Progress.{arrive, arrive-IsReceiving}
use fiber_kcp.Recv.Complete.{arrive_complete}
use fiber_kcp.Recv.History.{arrive_in_order}
use fiber_kcp.Recv.Message.{IsMessage, total, contents, HasLen, IsWhole}
use fiber_kcp.Recv.Receive.{recv_message}
use fiber_kcp.Send.{send, fragment_count}
use fiber_kcp.Send.Whole.{Carries, queued, send_queues}

-- What the receiver uses of a segment agrees.
abbrev Same : Segment → Segment → Type 0
Same f s = (s.frg ≡ f.frg) × (s.len ≡ f.len) × (s.payload ≡ f.payload)

-- The segment bears what the `i`-th of the fragments does.
abbrev At : ℕ → List Segment → Segment → Type 0
At i [] s = ⊥
At zero (f ∷ fs) s = Same f s
At (suc i) (f ∷ fs) s = At i fs s

-- The segment has the number and the bytes of one of the fragments, numbered from `base` on.
abbrev pub Bears : ℕ → List Segment → Segment → Type 0
Bears base frags s = At (sub32 s.sn base) frags s

-- The two lists agree segment by segment.
abbrev Alike : List Segment → List Segment → Type 0
Alike [] [] = Unit
Alike [] (m ∷ ms) = ⊥
Alike (f ∷ fs) [] = ⊥
Alike (f ∷ fs) (m ∷ ms) = Same f m × Alike fs ms

At-length : (i : ℕ) (fs : List Segment) (s : Segment) → At i fs s → i < length fs
At-length i [] s a = elim a [ ]
At-length zero (f ∷ fs) s a = omega arith
At-length (suc i) (f ∷ fs) s a = omega (arith, At-length i fs s a)

shift :
    (base j i : ℕ) (f : Segment) (fs ms : List Segment)
    → base < u32_mod
    → j < i
    → i + length ms < 2 ^ 31
    → Consecutive (add32 base i) ms
    → All (λ s. At (sub32 s.sn base - j) (f ∷ fs) s) ms
    → All (λ s. At (sub32 s.sn base - suc j) fs s) ms
shift base j i f fs [] hb hj hi c a = tt
shift base j i f fs (s ∷ ms) hb hj hi c a = (
  subst (λ m. At m (f ∷ fs) s) next a.0,
  shift base j (suc i) f fs ms hb (omega arith) (omega arith)
      (subst (λ n. Consecutive n ms) (omega arith) c.1) a.1,
)
  where
    next : sub32 s.sn base - j ≡ suc (sub32 s.sn base - suc j)
    next = omega (arith, c.0)

Consecutive-Alike :
    (base j : ℕ) (fs ms : List Segment)
    → base < u32_mod
    → j + length ms < 2 ^ 31
    → length ms ≡ length fs
    → Consecutive (add32 base j) ms
    → All (λ s. At (sub32 s.sn base - j) fs s) ms
    → Alike fs ms
Consecutive-Alike base j [] [] hb hj l c a = tt
Consecutive-Alike base j [] (s ∷ ms) hb hj l c a = absurd (omega arith)
Consecutive-Alike base j (f ∷ fs) [] hb hj l c a = absurd (omega arith)
Consecutive-Alike base j (f ∷ fs) (s ∷ ms) hb hj l c a = (
  subst (λ m. At m (f ∷ fs) s) here a.0,
  Consecutive-Alike base (suc j) fs ms hb (omega arith) (omega arith)
      (subst (λ n. Consecutive n ms) (omega arith) c.1)
      (shift base j (suc j) f fs ms hb (omega arith) (omega arith)
        (subst (λ n. Consecutive n ms) (omega arith) c.1) a.1),
)
  where
    here : sub32 s.sn base - j ≡ 0
    here = omega (arith, c.0)

from_start :
    (base : ℕ) (fs ms : List Segment)
    → All (Bears base fs) ms
    → All (λ s. At (sub32 s.sn base - 0) fs s) ms
from_start base fs [] a = tt
from_start base fs (s ∷ ms) a =
    (subst (λ n. At n fs s) (omega arith) a.0, from_start base fs ms a.1)

Alike-IsMessage : (fs ms : List Segment) → Alike fs ms → IsMessage fs → IsMessage ms
Alike-IsMessage [] ms a m = elim m [ ]
Alike-IsMessage (f ∷ fs) [] a m = elim a [ ]
Alike-IsMessage (f ∷ []) (s ∷ []) a m = a.0.0 ∙ m
Alike-IsMessage (f ∷ []) (s ∷ t ∷ ms) a m = elim a.1 [ ]
Alike-IsMessage (f ∷ g ∷ fs) (s ∷ []) a m = elim a.1 [ ]
Alike-IsMessage (f ∷ g ∷ fs) (s ∷ t ∷ ms) a m =
    ((λ e. m.0 (sym a.0.0 ∙ e)), Alike-IsMessage (g ∷ fs) (t ∷ ms) a.1 m.1)

Alike-HasLen : (fs ms : List Segment) → Alike fs ms → All HasLen fs → All HasLen ms
Alike-HasLen [] [] a h = tt
Alike-HasLen [] (s ∷ ms) a h = elim a [ ]
Alike-HasLen (f ∷ fs) [] a h = tt
Alike-HasLen (f ∷ fs) (s ∷ ms) a h = (ap length a.0.2 ∙ h.0 ∙ sym a.0.1, Alike-HasLen fs ms a.1 h.1)

Alike-contents :
    (fs ms : List Segment) → Alike fs ms → (contents ms ≡ contents fs) × (total ms ≡ total fs)
Alike-contents [] [] a = (refl, refl)
Alike-contents [] (s ∷ ms) a = elim a [ ]
Alike-contents (f ∷ fs) [] a = elim a [ ]
Alike-contents (f ∷ fs) (s ∷ ms) a =
    let (c, t) = Alike-contents fs ms a.1 in
    (ap (λ p. p ++ contents ms) a.0.2 ∙ ap (λ l. f.payload ++ l) c, omega (arith, a.0.1, t))

Alike-IsWhole : (fs ms : List Segment) (que : ℕ) → Alike fs ms → IsWhole fs que → IsWhole ms que
Alike-IsWhole fs [] que a w = tt
Alike-IsWhole [] (s ∷ ms) que a w = elim a [ ]
Alike-IsWhole (f ∷ fs) (s ∷ ms) que a w = omega (arith, a.0.0, w)

-- The fragments that a call of `ikcp_send` has queued carry its message.
sent_fragments :
    (k : Ikcpcb) (buffer : List ℕ) (frags : List Segment)
    → pattern32 k.stream ≡ 0
    → 0 < k.mss
    → k.mss < 2 ^ 31
    → length buffer < 2 ^ 31
    → fragment_count k.mss (length buffer) < 128
    → send k buffer (pos (length buffer)) ≡ some (queued k frags, pos 0)
    → Carries k.mss buffer frags
sent_fragments k buffer frags mode h hm hl few e =
    let (frags', e', c) = send_queues k buffer mode h hm hl few in
    subst (Carries k.mss buffer)
      (append_cancel_left k.snd_queue frags' frags
        (ap (λ (x : Ikcpcb × ℤ). x.0.snd_queue) (some-injective _ _ (sym e' ∙ e))))
      c

module _ (r : Ikcpcb) (buffer : List ℕ) (mss : ℕ) (frags l : List Segment) (v : IsReceiving r)
    (queue : r.rcv_queue ≡ []) (buf : r.rcv_buf ≡ []) (c : Carries mss buffer frags)
    (small : length buffer < 2 ^ 31) (room : length frags ≤ r.rcv_wnd)
    (bears : All (λ s. (s.sn < u32_mod) × Bears r.rcv_nxt frags s) l)
    (there : (i : ℕ) → i < length frags → HasSn (add32 r.rcv_nxt i) l) where
  in_range :
      (l : List Segment)
      → All (λ s. (s.sn < u32_mod) × Bears r.rcv_nxt frags s) l
      → All (λ s. (s.sn < u32_mod) × (sub32 s.sn r.rcv_nxt < length frags)) l
  in_range [] a = tt
  in_range (s ∷ l) a = ((a.0.0, At-length (sub32 s.sn r.rcv_nxt) frags s a.0.1), in_range l a.1)

  numbers :
      (l : List Segment)
      → All (λ s. (s.sn < u32_mod) × Bears r.rcv_nxt frags s) l
      → All (λ s. s.sn < u32_mod) l
  numbers [] a = tt
  numbers (s ∷ l) a = (a.0.0, numbers l a.1)

  none_queued : r.nrcv_que ≡ 0
  none_queued = v.queued ∙ ap length queue

  arrived_all :
      ((arrive r l).rcv_nxt ≡ add32 r.rcv_nxt (length frags))
      × ((arrive r l).nrcv_que ≡ r.nrcv_que + length frags)
      × ((arrive r l).rcv_buf ≡ [])
  arrived_all =
      arrive_complete r (length frags) l v buf (omega (arith, v.window))
        (omega (arith, none_queued)) (in_range l bears) there

  after : IsReceiving (arrive r l)
  after = arrive-IsReceiving r l v (numbers l bears)

  -- The queue holds segments that agree with the fragments.
  arrived-Alike : (ms : List Segment) × ((arrive r l).rcv_queue ≡ ms ++ []) × Alike frags ms
  arrived-Alike =
      let (ms, q, num, nxt, all) =
        arrive_in_order (Bears r.rcv_nxt frags) r l v
          (subst (All (Bears r.rcv_nxt frags)) (sym buf) tt) bears in
      let q' : (arrive r l).rcv_queue ≡ ms = q ∙ ap (λ x. x ++ ms) queue in
      let many : length ms ≡ length frags =
        omega (arith, after.queued, arrived_all.1, none_queued, ap length q') in
      (
        ms,
        q' ∙ sym (append-nil ms),
        Consecutive-Alike r.rcv_nxt 0 frags ms v.next (omega (arith, v.window)) many
            (subst (λ n. Consecutive n ms) (omega (arith, v.next)) num)
            (from_start r.rcv_nxt frags ms all),
      )

  received :
      (len : ℕ)
      → length buffer ≤ len
      → (got : Received) × (recv (arrive r l) true (pos len) ≡ some got)
        × (got.result ≡ pos (length buffer))
        × (got.out ≡ buffer)
  received len enough =
      let (ms, q, like) = arrived-Alike in
      let (bytes, size) = Alike-contents frags ms like in
      let (got, e, t) =
        recv_message (arrive r l) ms [] after q len (Alike-IsMessage frags ms like c.message)
          (Alike-HasLen frags ms like c.lens) (omega (arith, size, c.size))
          (Alike-IsWhole frags ms (arrive r l).nrcv_que like
            (subst (IsWhole frags) (omega (arith, arrived_all.1, none_queued)) c.announced))
          (omega (arith, size, c.size)) in
      (got, e, t.0 ∙ ap pos (size ∙ c.size), t.1 ∙ bytes ∙ c.bytes)

-- The message that one side queues in message mode is the one that the other side receives,
-- whatever the network does with the segments on the way: if every segment that arrives bears the
-- number and bytes of one of its fragments, counted on from the receiver's next number, and each
-- has come at least once, in any order, then ikcp_recv with a buffer that is large enough returns
-- the length of the message and exactly its bytes. The receiver starts with empty lists and a
-- window for the fragments.
pub send_receives :
    (k r : Ikcpcb) (buffer : List ℕ) (frags l : List Segment) (len : ℕ)
    → pattern32 k.stream ≡ 0
    → 0 < k.mss
    → k.mss < 2 ^ 31
    → length buffer < 2 ^ 31
    → fragment_count k.mss (length buffer) < 128
    → send k buffer (pos (length buffer)) ≡ some (queued k frags, pos 0)
    → IsReceiving r
    → r.rcv_queue ≡ []
    → r.rcv_buf ≡ []
    → length frags ≤ r.rcv_wnd
    → All (λ s. (s.sn < u32_mod) × Bears r.rcv_nxt frags s) l
    → ((i : ℕ) → i < length frags → HasSn (add32 r.rcv_nxt i) l)
    → length buffer ≤ len
    → (got : Received) × (recv (arrive r l) true (pos len) ≡ some got)
      × (got.result ≡ pos (length buffer))
      × (got.out ≡ buffer)
send_receives k r buffer frags l len mode h hm hl few sent v queue buf room bears there enough =
    received r buffer k.mss frags l v queue buf
      (sent_fragments k buffer frags mode h hm hl few sent) hl room bears there len enough
