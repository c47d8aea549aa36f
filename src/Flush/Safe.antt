-- ===== src/Flush/Safe.antt =====
-- What `ikcp_flush` does to the control block.
use fiber_kcp.Prelude.{
  ℕ, true, suc, ◌+◌, ◌^◌, ◌≤◌, ◌<◌, ◌≡◌, ◌≢◌, ◌⊎◌, refl, arith, ap, sym, ◌∙◌, subst, leb, ◌==◌,
  Bool-cases, inl, inr, List, [], ◌∷◌, ◌++◌, All, length, map, take, drop, length-take, length-drop,
  false,
}
use fiber_kcp.Word.{u32_mod, add32, sub32}
use fiber_kcp.Wire.{Segment}
use fiber_kcp.Control.{Ikcpcb}
use fiber_kcp.Recv.Order.{Ascending}
use fiber_kcp.Ack.Order.{IsSending}
use fiber_kcp.Ack.Safe.{IsWell}
use fiber_kcp.Flush.{flush, flush_control, flush_segments, send_window}
use fiber_kcp.Flush.Window.{filled, free, filled-IsSending}
use fiber_kcp.Flush.Outcome.{
  body, outgoing, Flushed, flush_lem, segments-Flushed, control_sets, body-numbered, map-append,
}

-- Segments that agree but for the fields that sending sets are ordered and bounded alike.
Ascending-body :
    (base lo : ℕ) (a : List Segment) → Ascending base lo a → Ascending base lo (map body a)
Ascending-body base lo [] p = tt
Ascending-body base lo (s ∷ a) p =
    (p.0, p.1, p.2, Ascending-body base (suc (sub32 s.sn base)) a p.3)

body-Ascending :
    (base lo : ℕ) (a : List Segment) → Ascending base lo (map body a) → Ascending base lo a
body-Ascending base lo [] p = tt
body-Ascending base lo (s ∷ a) p =
    (p.0, p.1, p.2, body-Ascending base (suc (sub32 s.sn base)) a p.3)

sent-body :
    (base n : ℕ) (a : List Segment)
    → All (λ s. sub32 s.sn base < n) a
    → All (λ s. sub32 s.sn base < n) (map body a)
sent-body base n [] p = tt
sent-body base n (s ∷ a) p = (p.0, sent-body base n a p.1)

body-sent :
    (base n : ℕ) (a : List Segment)
    → All (λ s. sub32 s.sn base < n) (map body a)
    → All (λ s. sub32 s.sn base < n) a
body-sent base n [] p = tt
body-sent base n (s ∷ a) p = (p.0, body-sent base n a p.1)

length-body : (a : List Segment) → length (map body a) ≡ length a
length-body [] = refl
length-body (s ∷ a) = ap suc (length-body a)

-- The window is no larger than the configured one.
send_window_small : (k : Ikcpcb) → k.snd_wnd < 2 ^ 31 → send_window k < 2 ^ 31
unfolding send_window
send_window_small k h = ground arith

abbrev pub taken : Ikcpcb → List Segment
taken k = take (free k (send_window k)) k.snd_queue

abbrev pub left : Ikcpcb → List Segment
left k = drop (free k (send_window k)) k.snd_queue

pub flush-segments :
    (k : Ikcpcb) → k.updated ≢ 0 → flush k ≡ flush_segments (flush_control k).0 (flush_control k).1
flush-segments k u = flush_lem k ∙ rw on refl
  where
    on : (k.updated == 0) ≡ false
    on = ground (arith, u)

-- What a flush needs of the control block.
pub record CanFlush (k : Ikcpcb) : Type 0 where
  pub sending : IsSending k
  pub send_wnd : k.snd_wnd < 2 ^ 31
  pub queue : k.nsnd_que < u32_mod

abbrev Outcome : Ikcpcb → Ikcpcb → Type 0
Outcome k k' =
    (w : ℕ) × (t : ℕ) × Flushed (record k { ackcount = 0; probe_wait = w; ts_probe = t; probe = 0 })
      (taken k) (left k) k'

flush-Outcome : (k : Ikcpcb) → CanFlush k → k.updated ≢ 0 → Outcome k (flush k).0
unfolding send_window
flush-Outcome k y u =
    let (w, t, e) = control_sets k in
    (
      w,
      t,
      subst
          (λ x.
            Flushed (record k { ackcount = 0; probe_wait = w; ts_probe = t; probe = 0 }) (taken k)
              (left k) x.0)
          (ap (λ x. flush_segments x (flush_control k).1) (sym e) ∙ sym (flush-segments k u))
          (segments-Flushed (record k { ackcount = 0; probe_wait = w; ts_probe = t; probe = 0 })
            (record {
              una = v.una;
              nxt = v.nxt;
              span = v.span;
              buffered = v.buffered;
              ordered = v.ordered;
              sent = v.sent;
            })
            (send_window_small k y.send_wnd) y.queue (flush_control k).1),
    )
  where
    v : IsSending k
    v = y.sending

pub flush_moves :
    (k : Ikcpcb)
    → CanFlush k
    → k.updated ≢ 0
    → ((flush k).0.snd_queue ≡ left k)
      × (map body (flush k).0.snd_buf ≡ map body k.snd_buf ++ outgoing k.conv k.snd_nxt (taken k))
      × ((flush k).0.snd_nxt ≡ add32 k.snd_nxt (length (taken k)))
      × ((flush k).0.snd_una ≡ k.snd_una)
flush_moves k y u =
    let (w, t, (wnd, buf, b, x, st, s, c, i, e)) = flush-Outcome k y u in
    subst
      (λ (x : Ikcpcb).
        (x.snd_queue ≡ left k)
        × (map body x.snd_buf ≡ map body k.snd_buf ++ outgoing k.conv k.snd_nxt (taken k))
        × (x.snd_nxt ≡ add32 k.snd_nxt (length (taken k)))
        × (x.snd_una ≡ k.snd_una))
      (sym e)
      (
        refl,
        b
            ∙ map-append k.snd_buf _
            ∙ ap (λ l. map body k.snd_buf ++ l)
                (body-numbered (record k { ackcount = 0; probe_wait = w; ts_probe = t; probe = 0 })
                  wnd k.snd_nxt (taken k)),
        refl,
        refl,
      )

flushed-IsWell : (k : Ikcpcb) → IsWell k → k.updated ≢ 0 → IsWell (flush k).0
flushed-IsWell k y u =
    let can : CanFlush k = record {
      sending = y.sending;
      send_wnd = y.send_wnd;
      queue = omega (arith, y.queue);
    } in
    let (w, t, (wnd, buf, b, x, st, s, c, i, e)) = flush-Outcome k can u in
    let kc : Ikcpcb = record k { ackcount = 0; probe_wait = w; ts_probe = t; probe = 0 } in
    let f =
      filled-IsSending kc wnd (taken k) (left k)
        (record {
          una = v.una;
          nxt = v.nxt;
          span = v.span;
          buffered = v.buffered;
          ordered = v.ordered;
          sent = v.sent;
        })
        fits in
    subst IsWell (sym e) (record {
      sending = record {
        una = f.una;
        nxt = f.nxt;
        span = f.span;
        buffered = f.buffered ∙ sym (length-body _) ∙ sym (ap length b) ∙ length-body buf;
        ordered =
            body-Ascending k.snd_una 0 buf
              (subst (Ascending k.snd_una 0) (sym b) (Ascending-body k.snd_una 0 _ f.ordered));
        sent = body-sent k.snd_una _ buf (
            subst
              (All (λ s.
                sub32 s.sn k.snd_una < sub32 (filled kc wnd (taken k) (left k)).snd_nxt k.snd_una))
              (sym b) (sent-body k.snd_una _ _ f.sent));
      };
      receiving = y.receiving;
      run = y.run;
      queue = omega (
        arith,
        y.queue,
        fits,
        length-take (free k (send_window k)) k.snd_queue,
        length-drop (free k (send_window k)) k.snd_queue,
      );
      send_wnd = y.send_wnd;
      flush_time = y.flush_time;
    })
  where
    v : IsSending k
    v = y.sending

    fits : sub32 k.snd_nxt k.snd_una + length (taken k) < 2 ^ 31
    fits = omega (
      arith,
      v.span,
      send_window_small k y.send_wnd,
      length-take (free k (send_window k)) k.snd_queue,
    )

-- ikcp_flush keeps both sides of a control block well formed, whether the clock runs or not.
pub flush-IsWell : (k : Ikcpcb) → IsWell k → IsWell (flush k).0
flush-IsWell k y = elim (Bool-cases (k.updated == 0)) [
  | inl off ↦ subst (λ (r : Ikcpcb × List (List ℕ)). IsWell r.0) (sym (unchanged off)) y
  | inr on ↦ flushed-IsWell k y (λ e. ground (arith, e))
]
  where
    unchanged : (k.updated == 0) ≡ true → flush k ≡ (k, [])
    unchanged off = flush_lem k ∙ rw off refl

-- After a flush of a control block whose sending side is well formed, whose send window is below
-- 2^31, whose count of queued segments is a 32-bit word and whose clock runs no more is in flight
-- than before, or than the window that it sent under.
pub flush_window :
    (k : Ikcpcb)
    → CanFlush k
    → k.updated ≢ 0
    → (sub32 (flush k).0.snd_nxt (flush k).0.snd_una ≤ sub32 k.snd_nxt k.snd_una)
      ⊎ (sub32 (flush k).0.snd_nxt (flush k).0.snd_una ≤ send_window k)
flush_window k y u =
    let (q, b, n, a) = flush_moves k y u in
    elim (Bool-cases (leb (send_window k) (sub32 k.snd_nxt k.snd_una))) [
      | inl full ↦ inl (bound n a full)
      | inr more ↦ inr (grown n a more)
    ]
  where
    v : IsSending k
    v = y.sending

    bound :
        (flush k).0.snd_nxt ≡ add32 k.snd_nxt (length (taken k))
        → (flush k).0.snd_una ≡ k.snd_una
        → leb (send_window k) (sub32 k.snd_nxt k.snd_una) ≡ true
        → sub32 (flush k).0.snd_nxt (flush k).0.snd_una ≤ sub32 k.snd_nxt k.snd_una
    bound n a full =
        ground (arith, n, a, v.una, v.nxt, v.span, length-take (free k (send_window k)) k.snd_queue)

    grown :
        (flush k).0.snd_nxt ≡ add32 k.snd_nxt (length (taken k))
        → (flush k).0.snd_una ≡ k.snd_una
        → leb (send_window k) (sub32 k.snd_nxt k.snd_una) ≡ false
        → sub32 (flush k).0.snd_nxt (flush k).0.snd_una ≤ send_window k
    grown n a more = ground (
      arith,
      n,
      a,
      v.una,
      v.nxt,
      v.span,
      send_window_small k y.send_wnd,
      length-take (free k (send_window k)) k.snd_queue,
    )
