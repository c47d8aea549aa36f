-- ===== src/Recv/Arrival.antt =====
-- The invariant of the receiving side, and `ikcp_parse_data`.
use fiber_kcp.Prelude.{
  ℕ, suc, ◌+◌, ◌^◌, ◌≤◌, ◌<◌, ◌≡◌, refl, ap, sym, subst, inl, inr, List, [], ◌∷◌, ◌++◌, arith,
  length, false, Bool-cases, leb, length-append,
}
use fiber_kcp.Word.{u32_mod, sub32, add32, itimediff}
use fiber_kcp.Wire.{Segment}
use fiber_kcp.Control.{Ikcpcb}
use fiber_kcp.Recv.{
  move_ready, parse_data, place, walk_back, Walk, repeated, placed, passed, out_of_window,
}
use fiber_kcp.Recv.Order.{Ascending, Inserted, Walked, walk_back-Walked}
use fiber_kcp.Recv.Moves.{Consecutive, Moves, moved_over, move_ready-Moves}

-- The counters count, the window and the queue are short of half the number space, and `rcv_buf`
-- rises strictly from `rcv_nxt` on.
pub record ReceivingSide (rcv_nxt rcv_wnd nrcv_que nrcv_buf : ℕ) (rcv_queue rcv_buf : List Segment)
    : Type 0 where
  pub next : rcv_nxt < u32_mod
  pub window : rcv_wnd < 2 ^ 31
  pub queued : nrcv_que ≡ length rcv_queue
  pub queue_small : nrcv_que < 2 ^ 31
  pub buffered : nrcv_buf ≡ length rcv_buf
  pub ordered : Ascending rcv_nxt 0 rcv_buf

abbrev pub IsReceiving : Ikcpcb → Type 0
IsReceiving k = ReceivingSide k.rcv_nxt k.rcv_wnd k.nrcv_que k.nrcv_buf k.rcv_queue k.rcv_buf

length-Ascending :
    (base lo : ℕ) (buf : List Segment)
    → lo ≤ 2 ^ 31
    → Ascending base lo buf
    → length buf + lo ≤ 2 ^ 31
length-Ascending base lo [] h a = omega arith
length-Ascending base lo (s ∷ buf) h a =
    omega (arith, length-Ascending base (suc (sub32 s.sn base)) buf (omega arith) a.3)

-- A turn of the base by one takes one off each distance.
rebase_one :
    (base lo : ℕ) (buf : List Segment)
    → base < u32_mod
    → Ascending base (suc lo) buf
    → Ascending (add32 base 1) lo buf
rebase_one base lo [] hb a = tt
rebase_one base lo (s ∷ buf) hb a = (
  a.0,
  omega arith,
  omega arith,
  subst (λ n. Ascending (add32 base 1) n buf) (omega arith)
      (rebase_one base (sub32 s.sn base) buf hb a.3),
)

rebase :
    (base : ℕ) (moved rest : List Segment)
    → base < u32_mod
    → Consecutive base moved
    → Ascending base 0 (moved ++ rest)
    → Ascending (add32 base (length moved)) 0 rest
rebase base [] rest hb c a = subst (λ n. Ascending n 0 rest) (omega arith) a
rebase base (s ∷ moved) rest hb c a =
    subst (λ n. Ascending n 0 rest) (ground arith)
      (rebase (add32 base 1) moved rest (omega arith) c.1 (
        rebase_one base 0 (moved ++ rest) hb
          (subst (λ n. Ascending base n (moved ++ rest)) (ground arith) a.3)))

pub ready-Moves : (k : Ikcpcb) → IsReceiving k → Moves k k.rcv_buf (move_ready k k.rcv_buf)
ready-Moves k r =
    move_ready-Moves k k.rcv_buf r.next r.window r.queue_small
      (omega (arith, length-Ascending k.rcv_nxt 0 k.rcv_buf (omega arith) r.ordered)) r.buffered

moved_over-IsReceiving :
    (k : Ikcpcb) (moved rest : List Segment)
    → IsReceiving k
    → k.rcv_buf ≡ moved ++ rest
    → Consecutive k.rcv_nxt moved
    → k.nrcv_que + length moved < 2 ^ 31
    → IsReceiving (moved_over k moved rest)
moved_over-IsReceiving k moved rest r e c b = record {
  next = omega arith;
  window = r.window;
  queued = omega (arith, length-append k.rcv_queue moved, r.queued);
  queue_small = b;
  buffered = refl;
  ordered = rebase k.rcv_nxt moved rest r.next c (subst (Ascending k.rcv_nxt 0) e r.ordered);
}

pub move_ready-IsReceiving : (k : Ikcpcb) → IsReceiving k → IsReceiving (move_ready k k.rcv_buf)
move_ready-IsReceiving k r = go (ready-Moves k r)
  where
    go : Moves k k.rcv_buf (move_ready k k.rcv_buf) → IsReceiving (move_ready k k.rcv_buf)
    go (moved, rest, e, q, c, st, b) = subst IsReceiving (sym q) (
        moved_over-IsReceiving k moved rest r e c (subst (λ (x : Ikcpcb). x.nrcv_que < 2 ^ 31) q b))

-- The test for a drop compares the distance from `rcv_nxt` with the window.
pub out_of_window_lem :
    (k : Ikcpcb) (sn : ℕ)
    → k.rcv_nxt < u32_mod
    → k.rcv_wnd < 2 ^ 31
    → sn < u32_mod
    → out_of_window k sn ≡ leb k.rcv_wnd (sub32 sn k.rcv_nxt)
unfolding out_of_window itimediff
out_of_window_lem k sn hn hw hs = ground arith

length-Inserted :
    (new : Segment) (buf l : List Segment) → Inserted new buf l → length l ≡ length buf + 1
length-Inserted new buf l (a, b, p, q) =
    omega (arith, ap length p, ap length q, length-append a b, length-append a (new ∷ b))

pub place-IsReceiving :
    (k : Ikcpcb) (new : Segment) (w : Walk)
    → IsReceiving k
    → new.sn < u32_mod
    → sub32 new.sn k.rcv_nxt < 2 ^ 31
    → Walked k.rcv_nxt 0 new k.rcv_buf w
    → IsReceiving (place k new w)
unfolding place
place-IsReceiving k new repeated r hs hd w = r
place-IsReceiving k new (placed l) r hs hd w = record {
  next = r.next;
  window = r.window;
  queued = r.queued;
  queue_small = r.queue_small;
  buffered = omega (
    arith,
    r.buffered,
    length-Inserted new k.rcv_buf l w.3,
    length-Ascending k.rcv_nxt 0 l (omega arith) w.2,
  );
  ordered = w.2;
}
place-IsReceiving k new passed r hs hd w = record {
  next = r.next;
  window = r.window;
  queued = r.queued;
  queue_small = r.queue_small;
  buffered =
      omega (arith, r.buffered, length-Ascending k.rcv_nxt 0 k.rcv_buf (omega arith) r.ordered);
  ordered = (hs, omega arith, hd, w.1);
}

-- Any segment with a 32-bit number that arrives at a well-formed receiver, in any order, again or
-- out of the window: the receiving side stays well formed.
pub parse_data-IsReceiving :
    (k : Ikcpcb) (new : Segment) → IsReceiving k → new.sn < u32_mod → IsReceiving (parse_data k new)
unfolding parse_data
parse_data-IsReceiving k new r hs = elim (Bool-cases (out_of_window k new.sn)) [
  | inl out ↦ rw out r
  | inr near ↦ rw near (
      move_ready-IsReceiving (place k new (walk_back new k.rcv_buf)) (
        place-IsReceiving k new (walk_back new k.rcv_buf) r hs (close near)
          (walk_back-Walked k.rcv_nxt new r.next hs (close near) 0 k.rcv_buf r.ordered)))
]
  where
    close : out_of_window k new.sn ≡ false → sub32 new.sn k.rcv_nxt < 2 ^ 31
    close e = ground (arith, out_of_window_lem k new.sn, r.window, r.next)
