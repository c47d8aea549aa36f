-- ===== src/Recv/Moves.antt =====
-- The move from `rcv_buf` to `rcv_queue`: the segments that go over, and where it stops.
use fiber_kcp.Prelude.{
  ℕ, ◌+◌, ◌^◌, ◌≤◌, ◌<◌, ◌≡◌, ◌≢◌, refl, ap, sym, ◌∙◌, subst, ◌⊎◌, inl, inr, List, [], ◌∷◌, ◌++◌,
  arith, length, Bool-cases, ◌==◌, ltb, ◌&&◌, append-nil, append_assoc,
}
use fiber_kcp.Word.{u32_mod, sub32, add32}
use fiber_kcp.Wire.{Segment}
use fiber_kcp.Control.{Ikcpcb}
use fiber_kcp.Recv.{move_ready}

-- The numbers of the segments are `n`, `n + 1` and so on, in 32 bits.
abbrev pub Consecutive : ℕ → List Segment → Type 0
Consecutive n [] = Unit {0}
Consecutive n (s ∷ l) = (s.sn ≡ n) × Consecutive (add32 n 1) l

-- A run that continues another.
pub Consecutive-append :
    (n : ℕ) (a b : List Segment)
    → n < u32_mod
    → Consecutive n a
    → Consecutive (add32 n (length a)) b
    → Consecutive n (a ++ b)
Consecutive-append n [] b h x y = subst (λ m. Consecutive m b) (omega arith) y
Consecutive-append n (s ∷ a) b h x y = (
  x.0,
  Consecutive-append (add32 n 1) a b (omega arith) x.1
      (subst (λ m. Consecutive m b) (omega arith) y),
)

-- Nothing more can go over: the next number is not at the head, or the queue is full.
abbrev pub Stuck : List Segment → ℕ → ℕ → ℕ → Type 0
Stuck [] nxt que wnd = Unit {0}
Stuck (s ∷ buf) nxt que wnd = (s.sn ≢ nxt) ⊎ (wnd ≤ que)

abbrev pub IsSettled : Ikcpcb → Type 0
IsSettled k = Stuck k.rcv_buf k.rcv_nxt k.nrcv_que k.rcv_wnd

-- A control block with the fields of the receiving side given anew.
abbrev receiving : Ikcpcb → ℕ → ℕ → ℕ → List Segment → List Segment → Ikcpcb
receiving k nxt nbuf nque queue buf = record k {
  rcv_nxt = nxt;
  nrcv_buf = nbuf;
  nrcv_que = nque;
  rcv_queue = queue;
  rcv_buf = buf;
}

receiving-cong :
    (k : Ikcpcb) (nxt nxt' nbuf nbuf' nque nque' : ℕ) (queue queue' buf : List Segment)
    → nxt ≡ nxt'
    → nbuf ≡ nbuf'
    → nque ≡ nque'
    → queue ≡ queue'
    → receiving k nxt nbuf nque queue buf ≡ receiving k nxt' nbuf' nque' queue' buf
receiving-cong k nxt nxt' nbuf nbuf' nque nque' queue queue' buf p q r t =
    λ i. receiving k (p i) (q i) (r i) (t i) buf

-- The state when `moved` has gone over and `rest` stays.
abbrev pub moved_over : Ikcpcb → List Segment → List Segment → Ikcpcb
moved_over k moved rest =
    receiving k (add32 k.rcv_nxt (length moved)) (length rest) (k.nrcv_que + length moved)
      (k.rcv_queue ++ moved) rest

abbrev pub Moves : Ikcpcb → List Segment → Ikcpcb → Type 0
Moves k buf k' =
    (moved : List Segment) × (rest : List Segment) × (buf ≡ moved ++ rest)
    × (k' ≡ moved_over k moved rest)
    × Consecutive k.rcv_nxt moved
    × IsSettled k'
    × (k'.nrcv_que < 2 ^ 31)

-- Behind a queue that runs up to the next number, what goes over continues the run.
pub moved_over-run :
    (k : Ikcpcb) (moved rest : List Segment)
    → k.rcv_nxt < u32_mod
    → k.nrcv_que ≡ length k.rcv_queue
    → k.nrcv_que + length moved < 2 ^ 31
    → Consecutive (sub32 k.rcv_nxt k.nrcv_que) k.rcv_queue
    → Consecutive k.rcv_nxt moved
    → let k' = moved_over k moved rest in Consecutive (sub32 k'.rcv_nxt k'.nrcv_que) k'.rcv_queue
moved_over-run k moved rest hn hl hs a b =
    subst (λ n. Consecutive n (k.rcv_queue ++ moved)) (omega (arith, hn, hs))
      (Consecutive-append (sub32 k.rcv_nxt k.nrcv_que) k.rcv_queue moved (omega arith) a
        (subst (λ n. Consecutive n moved) (omega (arith, hn, hl, hs)) b))

move_one : Ikcpcb → Segment → Ikcpcb
move_one k s = record k {
  nrcv_buf = sub32 k.nrcv_buf 1;
  rcv_queue = k.rcv_queue ++ (s ∷ []);
  nrcv_que = add32 k.nrcv_que 1;
  rcv_nxt = add32 k.rcv_nxt 1;
}

move_on :
    (k : Ikcpcb) (s : Segment) (buf : List Segment) (k' : Ikcpcb)
    → k.rcv_nxt < u32_mod
    → k.nrcv_que < 2 ^ 31
    → s.sn ≡ k.rcv_nxt
    → Moves (move_one k s) buf k'
    → Moves k (s ∷ buf) k'
unfolding move_one
move_on k s buf k' hn hq e (moved, rest, p, q, c, st, b) = (
  s ∷ moved,
  rest,
  ap (◌∷◌ s) p,
  q
      ∙ receiving-cong k _ _ _ _ _ _ _ _ rest (ground arith) refl (ground arith)
          (append_assoc k.rcv_queue (s ∷ []) moved),
  (e, c),
  st,
  b,
)

pub move_ready-Moves :
    (k : Ikcpcb) (buf : List Segment)
    → k.rcv_nxt < u32_mod
    → k.rcv_wnd < 2 ^ 31
    → k.nrcv_que < 2 ^ 31
    → length buf < 2 ^ 32
    → k.nrcv_buf ≡ length buf
    → Moves k buf (move_ready k buf)
unfolding move_ready move_one
move_ready-Moves k [] hn hw hq hl hb = (
  [],
  [],
  refl,
  receiving-cong k _ _ _ _ _ _ _ _ [] (omega arith) hb (omega arith) (sym (append-nil k.rcv_queue)),
  tt,
  tt,
  hq,
)
move_ready-Moves k (s ∷ buf) hn hw hq hl hb =
    elim (Bool-cases (s.sn == k.rcv_nxt && ltb k.nrcv_que k.rcv_wnd)) [
      | inl go ↦ rw go (
          move_on k s buf _ hn hq (ground arith) (
            move_ready-Moves (move_one k s) buf (omega arith) hw (ground arith) (omega arith)
              (omega arith)))
      | inr stay ↦ rw stay (
        [],
        s ∷ buf,
        refl,
        receiving-cong k _ _ _ _ _ _ _ _ (s ∷ buf) (omega arith) hb (omega arith)
            (sym (append-nil k.rcv_queue)),
        tt,
        ground arith,
        hq,
      )
    ]
