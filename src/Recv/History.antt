-- ===== src/Recv/History.antt =====
-- The queue after any history of arrivals.
use fiber_kcp.Prelude.{
  ◌<◌, ◌≡◌, ap, sym, ◌∙◌, subst, inl, inr, List, [], ◌∷◌, ◌++◌, arith, length, All, ltb, Bool-cases,
  append-nil, append_assoc, length-append, All-append,
}
use fiber_kcp.Word.{u32_mod, sub32, add32}
use fiber_kcp.Wire.{Segment}
use fiber_kcp.Control.{Ikcpcb}
use fiber_kcp.Recv.{parse_data}
use fiber_kcp.Recv.Moves.{Consecutive-append, Consecutive}
use fiber_kcp.Recv.Arrival.{IsReceiving, parse_data-IsReceiving}
use fiber_kcp.Recv.Delivery.{Delivers, parse_data-Delivers, parse_data_outside}
use fiber_kcp.Recv.Progress.{arrive, All-split, All-Holds}

module _ (P : Segment → Type 0) where
  -- `moved` has been appended to the queue, numbered on from `rcv_nxt`.
  abbrev pub Grows : Ikcpcb → Ikcpcb → Type 0
  Grows k k' =
      (moved : List Segment) × (k'.rcv_queue ≡ k.rcv_queue ++ moved)
      × Consecutive k.rcv_nxt moved
      × (k'.rcv_nxt ≡ add32 k.rcv_nxt (length moved))
      × All P moved

  Grows-none : (k : Ikcpcb) → IsReceiving k → Grows k k
  Grows-none k r = ([], sym (append-nil k.rcv_queue), tt, omega (arith, r.next), tt)

  Grows-trans : (k k1 k2 : Ikcpcb) → k.rcv_nxt < u32_mod → Grows k k1 → Grows k1 k2 → Grows k k2
  Grows-trans k k1 k2 h (a, q, c, x, pa) (b, q2, c2, x2, pb) = (
    a ++ b,
    q2 ∙ ap (λ l. l ++ b) q ∙ append_assoc k.rcv_queue a b,
    Consecutive-append k.rcv_nxt a b h c (subst (λ m. Consecutive m b) x c2),
    omega (arith, length-append a b),
    All-append P a b pa pb,
  )

  Delivers-Grows :
      (k k' : Ikcpcb) (new : Segment)
      → P new
      → All P k.rcv_buf
      → Delivers k new k'
      → Grows k k' × All P k'.rcv_buf
  Delivers-Grows k k' new n b (l, moved, rest, holds, e, q, c, st, asc) = (
    (moved, ap (λ (x : Ikcpcb). x.rcv_queue) q, c, ap (λ (x : Ikcpcb). x.rcv_nxt) q, parts.0),
    subst (λ (x : Ikcpcb). All P x.rcv_buf) (sym q) parts.1,
  )
    where
      parts : All P moved × All P rest
      parts = All-split P moved rest (subst (All P) e (All-Holds P new k.rcv_buf l holds n b))

  one_arrival :
      (k : Ikcpcb) (new : Segment)
      → IsReceiving k
      → new.sn < u32_mod
      → P new
      → All P k.rcv_buf
      → Grows k (parse_data k new) × All P (parse_data k new).rcv_buf
  one_arrival k new r hs n b = elim (Bool-cases (ltb (sub32 new.sn k.rcv_nxt) k.rcv_wnd)) [
    | inl near ↦
        Delivers-Grows k (parse_data k new) new n b (parse_data-Delivers k new r hs (ground arith))
    | inr far ↦ rw (parse_data_outside k new r hs (ground arith)) (Grows-none k r, b)
  ]

  -- Whatever segments arrive at a well-formed receiver, in any order and number, the receive queue
  -- grows at its end only, by segments numbered on from rcv_nxt without a gap or a repetition,
  -- rcv_nxt moves on by as many, and what holds of all that arrive and of what was buffered holds
  -- of what is queued.
  pub arrive_in_order :
      (k : Ikcpcb) (l : List Segment)
      → IsReceiving k
      → All P k.rcv_buf
      → All (λ s. (s.sn < u32_mod) × P s) l
      → Grows k (arrive k l)
  unfolding arrive
  arrive_in_order k [] r b a = Grows-none k r
  arrive_in_order k (s ∷ l) r b a =
      let one = one_arrival k s r a.0.0 a.0.1 b in
      Grows-trans k (parse_data k s) (arrive (parse_data k s) l) r.next one.0
        (arrive_in_order (parse_data k s) l (parse_data-IsReceiving k s r a.0.0) one.1 a.1)
