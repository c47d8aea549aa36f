-- ===== src/Kcp/Output.antt =====
-- `send` and `outputRoutine`: the buffers go to the engine in the order in which they were given.
use fiber_kcp.Prelude.{
  ℕ, ◌^◌, ◌<◌, ◌≡◌, refl, sym, ◌∙◌, ap, some, List, [], ◌∷◌, ◌++◌, append-nil, append_assoc, foldl,
  All, length, ℤ, ◌>>=◌,
}
use fiber_kcp.Word.{pattern32}
use fiber_kcp.Wire.{Segment}
use fiber_kcp.Control.{Ikcpcb}
use fiber_kcp.Send.{fragment_count}
use fiber_kcp.Send.Whole.{Carries, queued, send_queues}
use fiber_kcp.Clock.{update}
use fiber_kcp.Kcp.{Kcp, enqueue, send_all, output_block, output_routine}

-- The segments are the fragments of the buffers, one buffer behind the other.
abbrev pub CarriesAll : ℕ → List (List ℕ) → List Segment → Type 0
CarriesAll mss [] segs = segs ≡ []
CarriesAll mss (b ∷ bs) segs =
    (frags : List Segment) × (rest : List Segment) × (segs ≡ frags ++ rest)
    × Carries mss b frags
    × CarriesAll mss bs rest

-- The engine takes a buffer whole.
abbrev pub Fitting : ℕ → List ℕ → Type 0
Fitting mss b = (length b < 2 ^ 31) × (fragment_count mss (length b) < 128)

-- The buffers have been queued behind what was there; what is in flight and what was received is
-- as it was.
abbrev pub Sent : Ikcpcb → List (List ℕ) → Ikcpcb → Type 0
Sent k bs k' =
    (segs : List Segment) × CarriesAll k.mss bs segs
    × (k'.snd_queue ≡ k.snd_queue ++ segs)
    × (k'.snd_buf ≡ k.snd_buf)
    × (k'.rcv_queue ≡ k.rcv_queue)
    × (k'.rcv_buf ≡ k.rcv_buf)

send_all-Sent :
    (k : Ikcpcb) (bs : List (List ℕ))
    → pattern32 k.stream ≡ 0
    → 0 < k.mss
    → k.mss < 2 ^ 31
    → All (Fitting k.mss) bs
    → (k' : Ikcpcb) × (send_all bs k ≡ some k') × Sent k bs k'
unfolding send_all
send_all-Sent k [] m h h' a = (k, refl, ([], refl, sym (append-nil k.snd_queue), refl, refl, refl))
send_all-Sent k (b ∷ bs) m h h' a =
    let (frags, e, c) = send_queues k b m h h' a.0.0 a.0.1 in
    let (k', e', (segs, c', q, x, y, z)) = send_all-Sent (queued k frags) bs m h h' a.1 in
    (
      k',
      ap (λ r. r >>= λ (p : Ikcpcb × ℤ). send_all bs p.0) e ∙ e',
      (frags ++ segs, (frags, segs, refl, c, c'), q ∙ append_assoc k.snd_queue frags segs, x, y, z),
    )

-- Buffers given one after the other.
abbrev pub enqueue_all : List (List ℕ) → Kcp → Kcp
enqueue_all bs c = foldl (λ c b. enqueue b c) c bs

enqueue_all_lem :
    (bs : List (List ℕ)) (c : Kcp)
    → enqueue_all bs c ≡ record c { send_buf_queue = c.send_buf_queue ++ bs }
unfolding enqueue
enqueue_all_lem [] c = ap (λ q. record c { send_buf_queue = q }) (sym (append-nil c.send_buf_queue))
enqueue_all_lem (b ∷ bs) c =
    enqueue_all_lem bs (enqueue b c)
    ∙ ap (λ q. record c { send_buf_queue = q }) (append_assoc c.send_buf_queue (b ∷ []) bs)

module _ (c : Kcp) (k : Ikcpcb) (now : ℕ) (bs : List (List ℕ)) where
  output_block_sends :
      (k' : Ikcpcb)
      → send_all (c.send_buf_queue ++ bs) k ≡ some k'
      → output_block now (record c { send_buf_queue = c.send_buf_queue ++ bs }) (some k)
        ≡ some
            (record c { handle = some (update k' now).0; send_buf_queue = [] }, (update k' now).1)
  unfolding output_block
  output_block_sends k' e =
      ap
        (λ r. r >>= λ (x : Ikcpcb).
          some (record c { handle = some (update x now).0; send_buf_queue = [] }, (update x now).1))
        e

  -- In message mode, with a segment size below 2^31 and buffers that need fewer than 128 fragments
  -- each: buffers given to send wait behind those that wait already, and the output routine hands
  -- them all to ikcp_send, whose queue then carries them whole and in that order behind what it
  -- held. None waits any more, and ikcp_update has run once on that.
  pub output_routine_sends :
      c.handle ≡ some k
      → pattern32 k.stream ≡ 0
      → 0 < k.mss
      → k.mss < 2 ^ 31
      → All (Fitting k.mss) (c.send_buf_queue ++ bs)
      → (k' : Ikcpcb) × Sent k (c.send_buf_queue ++ bs) k'
        × (output_routine now (enqueue_all bs c)
            ≡ some (
              record c { handle = some (update k' now).0; send_buf_queue = [] },
              (update k' now).1,
            ))
  unfolding output_routine
  output_routine_sends e m h h' a =
      let (k', e', s) = send_all-Sent k (c.send_buf_queue ++ bs) m h h' a in
      (
        k',
        s,
        ap (output_routine now) (enqueue_all_lem bs c)
            ∙ ap (output_block now (record c { send_buf_queue = c.send_buf_queue ++ bs })) e
            ∙ output_block_sends k' e',
      )
