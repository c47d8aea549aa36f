-- ===== src/Recv/Message.antt =====
-- Taking a message off the queue.
use fiber_kcp.Prelude.{
  ℕ, ◌+◌, ◌-◌, ◌^◌, ◌≤◌, ◌<◌, ◌≡◌, ◌≢◌, refl, ap, sym, ◌∙◌, subst, ◌⊎◌, inl, inr, List, [], ◌∷◌,
  ◌++◌, arith, length, All, ltb, Bool, Bool-cases, true, false, append-nil, append_assoc, take,
  take-all, if◌then◌else◌, Option, some, ℤ, pos, negsuc, is_neg, not, ltb_ℤ, neg_ℤ,
}
use fiber_kcp.Word.{u32_mod, sub32, add32, signed32}
use fiber_kcp.Wire.{Segment}
use fiber_kcp.Control.{Ikcpcb}
use fiber_kcp.Recv.{
  move_ready, merge, Merged, peek_length, peek_queue, peeksize, recv_from, Received, deliver,
  recover, refuse,
}

-- The fragments of one message: the last has `frg` zero, and no other has.
abbrev pub IsMessage : List Segment → Type 0
IsMessage [] = ⊥
IsMessage (s ∷ []) = s.frg ≡ 0
IsMessage (s ∷ t ∷ l) = (s.frg ≢ 0) × IsMessage (t ∷ l)

abbrev pub total : List Segment → ℕ
total [] = 0
total (s ∷ l) = s.len + total l

abbrev pub contents : List Segment → List ℕ
contents [] = []
contents (s ∷ l) = s.payload ++ contents l

-- `len` is the number of bytes that follow the header.
abbrev pub HasLen : Segment → Type 0
HasLen s = length s.payload ≡ s.len

pub merge-message :
    (msg rest : List Segment) (out : List ℕ) (len que : ℕ)
    → IsMessage msg
    → All HasLen msg
    → len + total msg < u32_mod
    → length msg ≤ que
    → que < u32_mod
    → merge false true out len que (msg ++ rest) ≡ record {
      out = out ++ contents msg;
      len = len + total msg;
      nrcv_que = que - length msg;
      rest = rest;
    }
unfolding merge
merge-message [] rest out len que m h b c d = elim m [ ]
merge-message (s ∷ []) rest out len que m h b c d =
    ground (arith, take-all s.len s.payload, append-nil s.payload)
merge-message (s ∷ t ∷ l) rest out len que m h b c d = ground (
  arith,
  take-all s.len s.payload,
  merge-message (t ∷ l) rest (out ++ s.payload) (len + s.len) (que - 1) m.1 h.1,
  append_assoc out s.payload (contents (t ∷ l)),
)

peek_length-message :
    (msg rest : List Segment) (len : ℕ)
    → IsMessage msg
    → len + total msg < u32_mod
    → peek_length len (msg ++ rest) ≡ len + total msg
unfolding peek_length
peek_length-message [] rest len m h = elim m [ ]
peek_length-message (s ∷ []) rest len m h = ground arith
peek_length-message (s ∷ t ∷ l) rest len m h =
    ground (arith, peek_length-message (t ∷ l) rest (len + s.len) m.1)

-- As many segments are queued as the number of the first fragment announces.
abbrev pub IsWhole : List Segment → ℕ → Type 0
IsWhole [] que = Unit {0}
IsWhole (s ∷ l) que = s.frg + 1 ≤ que

pub peek_queue-message :
    (k : Ikcpcb) (msg rest : List Segment)
    → IsMessage msg
    → total msg < 2 ^ 31
    → IsWhole msg k.nrcv_que
    → k.nrcv_que < 2 ^ 31
    → peek_queue k (msg ++ rest) ≡ pos (total msg)
unfolding peek_queue
peek_queue-message k [] rest m h w q = elim m [ ]
peek_queue-message k (s ∷ []) rest m h w q = ground arith
peek_queue-message k (s ∷ t ∷ l) rest m h w q =
    ground (arith, peek_length-message (s ∷ t ∷ l) rest 0 m)

-- The length that the merging loop adds up is the one that `ikcp_peeksize` found.
merge-len :
    (peek buffer : Bool) (q : List Segment) (out : List ℕ) (len que : ℕ)
    → (merge peek buffer out len que q).len ≡ peek_length len q
unfolding merge peek_length
merge-len peek buffer [] out len que = refl
merge-len peek buffer (s ∷ q) out len que = ground (
  arith,
  merge-len peek buffer q (if buffer then out ++ take s.len s.payload else out) (add32 len s.len)
      (if peek then que else sub32 que 1),
)

peek_queue-nonneg :
    (k : Ikcpcb) (s : Segment) (q : List Segment)
    → s.len < u32_mod
    → is_neg (peek_queue k (s ∷ q)) ≡ false
    → peek_queue k (s ∷ q) ≡ signed32 (peek_length 0 (s ∷ q))
unfolding peek_queue peek_length
peek_queue-nonneg k s q h n = ground arith

ltb_ℤ-irrefl : (x : ℤ) → ltb_ℤ x x ≡ false
ltb_ℤ-irrefl x = ground arith

-- The state behind a delivery that has merged as `m` says.
abbrev pub delivered : Ikcpcb → Bool → Merged → Ikcpcb
delivered k peek m = recover (not (ltb k.nrcv_que k.rcv_wnd)) (
    move_ready
      (record k { rcv_queue = if peek then k.rcv_queue else m.rest; nrcv_que = m.nrcv_que })
      k.rcv_buf)

pub deliver_lem :
    (k : Ikcpcb) (peek buffer : Bool) (peeked : ℤ)
    → peeked ≡ signed32 (merge peek buffer [] 0 k.nrcv_que k.rcv_queue).len
    → deliver k peek buffer peeked
      ≡ some (record {
        block = delivered k peek (merge peek buffer [] 0 k.nrcv_que k.rcv_queue);
        result = peeked;
        out = (merge peek buffer [] 0 k.nrcv_que k.rcv_queue).out;
      })
unfolding deliver
deliver_lem k peek buffer peeked e =
    rw (e, ltb_ℤ-irrefl (signed32 (merge peek buffer [] 0 k.nrcv_que k.rcv_queue).len)) refl

pub peeked-merge :
    (k : Ikcpcb) (peek buffer : Bool) (s : Segment) (q : List Segment)
    → k.rcv_queue ≡ s ∷ q
    → s.len < u32_mod
    → is_neg (peeksize k) ≡ false
    → peeksize k ≡ signed32 (merge peek buffer [] 0 k.nrcv_que k.rcv_queue).len
unfolding peeksize
peeked-merge k peek buffer s q e h n =
    ap (peek_queue k) e
    ∙ peek_queue-nonneg k s q h (subst (λ l. is_neg (peek_queue k l) ≡ false) e n)
    ∙ ap (λ l. signed32 (peek_length 0 l)) (sym e)
    ∙ ap signed32 (sym (merge-len peek buffer k.rcv_queue [] 0 k.nrcv_que))

-- How a call on a queue that is not empty may end.
abbrev pub Ends : Ikcpcb → Bool → ℤ → Option Received → Type 0
Ends k buffer len r =
    (is_neg (peeksize k) ≡ true) × (r ≡ refuse k (negsuc 1))
    ⊎ (ltb_ℤ (if is_neg len then neg_ℤ len else len) (peeksize k) ≡ true)
      × (r ≡ refuse k (negsuc 2))
    ⊎ (is_neg (peeksize k) ≡ false) × (r ≡ deliver k (is_neg len) buffer (peeksize k))

pub recv_from-Ends :
    (k : Ikcpcb) (buffer : Bool) (len : ℤ) (s : Segment) (q : List Segment)
    → Ends k buffer len (recv_from k buffer len (s ∷ q))
unfolding recv_from
recv_from-Ends k buffer len s q = elim (Bool-cases (is_neg (peeksize k))) [
  | inl a ↦ rw a (inl (refl, refl))
  | inr a ↦ rw a (elim (Bool-cases (ltb_ℤ (if is_neg len then neg_ℤ len else len) (peeksize k))) [
    | inl b ↦ rw b (inr (inl (refl, refl)))
    | inr b ↦ rw b (inr (inr (refl, refl)))
  ])
]
