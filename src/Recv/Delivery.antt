-- ===== src/Recv/Delivery.antt =====
-- What one arrival does to the two receive lists.
use fiber_kcp.Prelude.{
  ◌≤◌, ◌<◌, ◌≡◌, refl, ◌∙◌, subst, ◌⊎◌, inl, inr, List, [], ◌++◌, arith, true, false,
}
use fiber_kcp.Word.{u32_mod, sub32}
use fiber_kcp.Wire.{Segment}
use fiber_kcp.Control.{Ikcpcb}
use fiber_kcp.Recv.{
  parse_data, move_ready, place, walk_back, Walk, repeated, placed, passed, out_of_window,
}
use fiber_kcp.Recv.Order.{Ascending, HasSn, Inserted, Walked, walk_back-Walked}
use fiber_kcp.Recv.Moves.{Consecutive, IsSettled, Moves, moved_over}
use fiber_kcp.Recv.Arrival.{IsReceiving, ready-Moves, place-IsReceiving, out_of_window_lem}

-- The buffer with the new segment in its place, or as it was if the number is there already.
abbrev pub Holds : Segment → List Segment → List Segment → Type 0
Holds new buf l = (HasSn new.sn buf × (l ≡ buf)) ⊎ ((¬ HasSn new.sn buf) × Inserted new buf l)

place-Holds :
    (k : Ikcpcb) (new : Segment) (w : Walk)
    → Walked k.rcv_nxt 0 new k.rcv_buf w
    → Holds new k.rcv_buf (place k new w).rcv_buf
unfolding place
place-Holds k new repeated h = inl (h, refl)
place-Holds k new (placed l) h = inr (h.0, h.3)
place-Holds k new passed h = inr (h.0, ([], k.rcv_buf, refl, refl))

moved_over-place :
    (k : Ikcpcb) (new : Segment) (w : Walk) (moved rest : List Segment)
    → moved_over (place k new w) moved rest ≡ moved_over k moved rest
unfolding place
moved_over-place k new repeated moved rest = refl
moved_over-place k new (placed l) moved rest = refl
moved_over-place k new passed moved rest = refl

place-rcv_nxt : (k : Ikcpcb) (new : Segment) (w : Walk) → (place k new w).rcv_nxt ≡ k.rcv_nxt
unfolding place
place-rcv_nxt k new repeated = refl
place-rcv_nxt k new (placed l) = refl
place-rcv_nxt k new passed = refl

-- `moved` leaves the buffer for the queue and `rest` stays.
abbrev pub Delivers : Ikcpcb → Segment → Ikcpcb → Type 0
Delivers k new k' =
    (l : List Segment) × (moved : List Segment) × (rest : List Segment) × Holds new k.rcv_buf l
    × (l ≡ moved ++ rest)
    × (k' ≡ moved_over k moved rest)
    × Consecutive k.rcv_nxt moved
    × IsSettled k'
    × Ascending k.rcv_nxt 0 l

module _ (k : Ikcpcb) (new : Segment) (r : IsReceiving k) (hs : new.sn < u32_mod) where
  deliver_placed :
      (w : Walk)
      → Walked k.rcv_nxt 0 new k.rcv_buf w
      → IsReceiving (place k new w)
      → Moves
          (place k new w)
          (place k new w).rcv_buf
          (move_ready (place k new w) (place k new w).rcv_buf)
      → Delivers k new (move_ready (place k new w) (place k new w).rcv_buf)
  deliver_placed w h v (moved, rest, e, q, c, st, b) = (
    (place k new w).rcv_buf,
    moved,
    rest,
    place-Holds k new w h,
    e,
    q ∙ moved_over-place k new w moved rest,
    subst (λ n. Consecutive n moved) (place-rcv_nxt k new w) c,
    st,
    subst (λ n. Ascending n 0 (place k new w).rcv_buf) (place-rcv_nxt k new w) v.ordered,
  )

  -- At a well-formed receiver a segment whose number lies in the window is put in its place in
  -- rcv_buf, which is then in strict order, unless its number is there already; then the segments
  -- at the head that continue the queue, and only those, go over to it in the order of their
  -- numbers, until the next number is missing or the queue is full; nothing else of the state
  -- changes.
  pub parse_data-Delivers : sub32 new.sn k.rcv_nxt < k.rcv_wnd → Delivers k new (parse_data k new)
  unfolding parse_data
  parse_data-Delivers near =
      rw inside (deliver_placed w h placed_ok (ready-Moves (place k new w) placed_ok))
    where
      inside : out_of_window k new.sn ≡ false
      inside = ground (arith, out_of_window_lem k new.sn r.next r.window hs)

      w : Walk
      w = walk_back new k.rcv_buf

      h : Walked k.rcv_nxt 0 new k.rcv_buf w
      h = walk_back-Walked k.rcv_nxt new r.next hs (omega (arith, r.window)) 0 k.rcv_buf r.ordered

      placed_ok : IsReceiving (place k new w)
      placed_ok = place-IsReceiving k new w r hs (omega (arith, r.window)) h

  -- A segment that is out of the window changes nothing.
  pub parse_data_outside : k.rcv_wnd ≤ sub32 new.sn k.rcv_nxt → parse_data k new ≡ k
  unfolding parse_data
  parse_data_outside far = rw outside refl
    where
      outside : out_of_window k new.sn ≡ true
      outside = ground (arith, out_of_window_lem k new.sn r.next r.window hs)
