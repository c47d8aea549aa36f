-- ===== src/Recv/Complete.antt =====
-- The receive lists once all segments of a range have arrived.
use fiber_kcp.Prelude.{
  ℕ, suc, ◌+◌, ◌^◌, ◌≤◌, ◌<◌, ◌≡◌, refl, ap, sym, ◌∙◌, subst, ◌⊎◌, inl, inr, List, [], ◌∷◌, arith,
  length, All, ltb, Bool-cases, ltb→lt,
}
use fiber_kcp.Word.{u32_mod, sub32, add32}
use fiber_kcp.Wire.{Segment}
use fiber_kcp.Control.{Ikcpcb}
use fiber_kcp.Recv.{parse_data}
use fiber_kcp.Recv.Order.{Ascending, HasSn}
use fiber_kcp.Recv.Moves.{Consecutive, IsSettled, Stuck}
use fiber_kcp.Recv.Arrival.{IsReceiving, parse_data-IsReceiving}
use fiber_kcp.Recv.Delivery.{Delivers, parse_data-Delivers, parse_data_outside}
use fiber_kcp.Recv.Progress.{
  arrive, HasSn-append, HasSn-Holds, All-split, All-Holds, Consecutive-HasSn, Consecutive-bound,
}

module _ (base n que wnd : ℕ) (hb : base < u32_mod) (hn : n < 2 ^ 31) (fits : que + n ≤ wnd) where
  abbrev Near : Segment → Type 0
  Near s = sub32 s.sn base < n

  -- The state when the first `m` numbers from `base` on have gone to the queue.
  record Progress (k : Ikcpcb) (m : ℕ) : Type 0 where
    well : IsReceiving k
    at : k.rcv_nxt ≡ add32 base m
    some_left : m ≤ n
    count : k.nrcv_que ≡ que + m
    window : k.rcv_wnd ≡ wnd
    settled : IsSettled k
    near : All Near k.rcv_buf

  -- The number has gone over or is in the buffer.
  abbrev Seen : ℕ → Ikcpcb → ℕ → Type 0
  Seen sn k m = (sub32 sn base < m) ⊎ HasSn sn k.rcv_buf

  abbrev Advanced : Ikcpcb → Segment → ℕ → Ikcpcb → Type 0
  Advanced k new m k' =
      (m' : ℕ) × (m ≤ m')
      × Progress k' m'
      × ((sn : ℕ) → Seen sn k m ⊎ (new.sn ≡ sn) → Seen sn k' m')

  outside :
      (k : Ikcpcb) (m : ℕ) (new : Segment)
      → Progress k m
      → sub32 new.sn base < m
      → (sn : ℕ) → Seen sn k m ⊎ (new.sn ≡ sn)
      → Seen sn k m
  outside k m new p lt sn (inl s) = s
  outside k m new p lt sn (inr e) = inl (subst (λ x. sub32 x base < m) e lt)

  module _ (k : Ikcpcb) (m : ℕ) (new : Segment) (p : Progress k m) (hs : new.sn < u32_mod)
      (near : Near new) where
    delivered : Delivers k new (parse_data k new) → Advanced k new m (parse_data k new)
    delivered (l, moved, rest, holds, e, q, c, st, asc) = (
      m + length moved,
      omega arith,
      record {
        well = parse_data-IsReceiving k new p.well hs;
        at = omega (arith, ap (λ (x : Ikcpcb). x.rcv_nxt) q, p.at);
        some_left = bound;
        count = omega (arith, ap (λ (x : Ikcpcb). x.nrcv_que) q, p.count);
        window = ap (λ (x : Ikcpcb). x.rcv_wnd) q ∙ p.window;
        settled = st;
        near = subst (λ (x : Ikcpcb). All Near x.rcv_buf) (sym q) near_parts.1;
      },
      λ sn s. seen sn s,
    )
      where
        near_parts : All Near moved × All Near rest
        near_parts =
            All-split Near moved rest
              (subst (All Near) e (All-Holds Near new k.rcv_buf l holds near p.near))

        from_m : Consecutive (add32 base m) moved
        from_m = subst (λ x. Consecutive x moved) p.at c

        bound : m + length moved ≤ n
        bound = Consecutive-bound base m n moved hb p.some_left hn from_m near_parts.0

        in_list : (sn : ℕ) → HasSn sn l → Seen sn (parse_data k new) (m + length moved)
        in_list sn h = elim (HasSn-append sn moved rest (subst (HasSn sn) e h)) [
          | inl x ↦ inl (Consecutive-HasSn base m sn moved hb (omega (arith, bound)) from_m x)
          | inr y ↦ inr (subst (λ (x : Ikcpcb). HasSn sn x.rcv_buf) (sym q) y)
        ]

        seen :
            (sn : ℕ) → Seen sn k m ⊎ (new.sn ≡ sn) → Seen sn (parse_data k new) (m + length moved)
        seen sn (inl (inl lt)) = inl (omega arith)
        seen sn (inl (inr h)) = in_list sn (HasSn-Holds sn new k.rcv_buf l holds (inl h))
        seen sn (inr x) = in_list sn (HasSn-Holds sn new k.rcv_buf l holds (inr x))

    step : Advanced k new m (parse_data k new)
    step = elim (Bool-cases (ltb (sub32 new.sn base) m)) [
      | inl old ↦
          rw (parse_data_outside k new p.well hs (ground (arith, p.at, p.window, p.some_left)))
            (m, omega arith, p, outside k m new p (ltb→lt _ _ old))
      | inr fresh ↦
          delivered
            (parse_data-Delivers k new p.well hs (ground (arith, p.at, p.window, p.some_left)))
    ]

  abbrev Goes : Ikcpcb → ℕ → List Segment → Ikcpcb → Type 0
  Goes k m l k' = (m' : ℕ) × Progress k' m' × ((sn : ℕ) → Seen sn k m ⊎ HasSn sn l → Seen sn k' m')

  join :
      (k k1 k' : Ikcpcb) (new : Segment) (l : List Segment) (m : ℕ)
      → Advanced k new m k1
      → ((m1 : ℕ) → Progress k1 m1 → Goes k1 m1 l k')
      → Goes k m (new ∷ l) k'
  join k k1 k' new l m (m1, le, p1, seen) next =
      let (m2, p2, seen2) = next m1 p1 in
      (
        m2,
        p2,
        λ sn s. seen2 sn (elim s [
          | inl x ↦ inl (seen sn (inl x))
          | inr y ↦ elim y [ inl e ↦ inl (seen sn (inr e)) | inr h ↦ inr h ]
        ]),
      )

  steps :
      (k : Ikcpcb) (m : ℕ) (l : List Segment)
      → Progress k m
      → All (λ s. (s.sn < u32_mod) × Near s) l
      → Goes k m l (arrive k l)
  unfolding arrive
  steps k m [] p a = (m, p, λ sn s. elim s [ inl x ↦ x | inr y ↦ absurd y ])
  steps k m (new ∷ l) p a =
      join k (parse_data k new) (arrive (parse_data k new) l) new l m (step k m new p a.0.0 a.0.1)
        (λ m1 p1. steps (parse_data k new) m1 l p1 a.1)

  -- All of the range has gone over, and nothing is left.
  Complete : Ikcpcb → Type 0
  Complete k = (k.rcv_nxt ≡ add32 base n) × (k.nrcv_que ≡ que + n) × (k.rcv_buf ≡ [])

  Stuck-head :
      (buf : List Segment) (nxt q w : ℕ)
      → nxt < u32_mod
      → Ascending nxt 0 buf
      → HasSn nxt buf
      → Stuck buf nxt q w
      → w ≤ q
  Stuck-head [] nxt q w hx a h st = elim h [ ]
  Stuck-head (s ∷ buf) nxt q w hx a (inl e) (inl ne) = absurd (ne e)
  Stuck-head (s ∷ buf) nxt q w hx a (inr h) (inl ne) = absurd (later buf (sub32 s.sn nxt) a.3 h)
    where
      later : (l : List Segment) (lo : ℕ) → Ascending nxt (suc lo) l → HasSn nxt l → ⊥
      later (t ∷ l) lo b (inl e) = ground arith
      later (t ∷ l) lo b (inr h) = later l (sub32 t.sn nxt) b.3 h
      later [] lo b h = h
  Stuck-head (s ∷ buf) nxt q w hx a h (inr le) = le

  drained :
      (k : Ikcpcb) (buf : List Segment) → Ascending (add32 base n) 0 buf → All Near buf → buf ≡ []
  drained k [] a b = refl
  drained k (s ∷ buf) a b = absurd (ground arith)

  finished :
      (k : Ikcpcb) (m : ℕ) → Progress k m → ((i : ℕ) → i < n → Seen (add32 base i) k m) → Complete k
  unfolding Complete
  finished k m p all = elim (Bool-cases (ltb m n)) [
    | inl less ↦ absurd (blocked (all m (ltb→lt _ _ less)) (ltb→lt _ _ less))
    | inr more ↦ (
      at_end (ground arith),
      omega (arith, p.count, ground_eq (ground arith)),
      drained k k.rcv_buf
          (subst (λ x. Ascending x 0 k.rcv_buf) (at_end (ground arith)) p.well.ordered) p.near,
    )
  ]
    where
      ground_eq : n ≤ m → m ≡ n
      ground_eq h = omega (arith, p.some_left)

      at_end : n ≤ m → k.rcv_nxt ≡ add32 base n
      at_end h = p.at ∙ ap (add32 base) (ground_eq h)

      blocked : Seen (add32 base m) k m → m < n → ⊥
      blocked (inl lt) h = ground arith
      blocked (inr here) h = omega (
        arith,
        Stuck-head k.rcv_buf k.rcv_nxt k.nrcv_que k.rcv_wnd p.well.next p.well.ordered
            (subst (λ x. HasSn x k.rcv_buf) (sym p.at) here) p.settled,
        p.count,
        p.window,
        fits,
      )

-- If exactly the segments with the next n numbers arrive, in any order and each any number of
-- times, at a well-formed receiver with an empty buffer and room for them in its queue, then
-- rcv_nxt has moved on by n, n more are queued and none stays in the buffer.
pub arrive_complete :
    (k : Ikcpcb) (n : ℕ) (l : List Segment)
    → IsReceiving k
    → k.rcv_buf ≡ []
    → n < 2 ^ 31
    → k.nrcv_que + n ≤ k.rcv_wnd
    → All (λ s. (s.sn < u32_mod) × (sub32 s.sn k.rcv_nxt < n)) l
    → ((i : ℕ) → i < n → HasSn (add32 k.rcv_nxt i) l)
    → ((arrive k l).rcv_nxt ≡ add32 k.rcv_nxt n)
      × ((arrive k l).nrcv_que ≡ k.nrcv_que + n)
      × ((arrive k l).rcv_buf ≡ [])
unfolding Complete
arrive_complete k n l r e hn fits a all = go (steps base n que wnd r.next hn fits k 0 l start a)
  where
    base : ℕ
    base = k.rcv_nxt

    que : ℕ
    que = k.nrcv_que

    wnd : ℕ
    wnd = k.rcv_wnd

    start : Progress base n que wnd r.next hn fits k 0
    start = record {
      well = r;
      at = omega (arith, r.next);
      some_left = omega arith;
      count = omega arith;
      window = refl;
      settled = subst (λ b. Stuck b base que wnd) (sym e) tt;
      near = subst (All (λ s. sub32 s.sn base < n)) (sym e) tt;
    }

    go :
        Goes base n que wnd r.next hn fits k 0 l (arrive k l)
        → Complete base n que wnd r.next hn fits (arrive k l)
    go (m, p, seen) =
        finished base n que wnd r.next hn fits (arrive k l) m p
          (λ i h. seen (add32 base i) (inr (all i h)))
