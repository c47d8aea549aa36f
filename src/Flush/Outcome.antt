-- ===== src/Flush/Outcome.antt =====
-- The control block that the parts of `ikcp_flush` leave.
use fiber_kcp.Prelude.{
  ℕ, ◌^◌, ◌<◌, ◌≡◌, refl, arith, ap, ◌∙◌, ltb, ◌==◌, if◌then◌else◌, Bool, List, [], ◌∷◌, ◌++◌, map,
  take, drop, is_neg, if_cases, false,
}
use fiber_kcp.Word.{u32_mod, add32, itimediff}
use fiber_kcp.Wire.{Segment}
use fiber_kcp.Control.{Ikcpcb, cmd_push}
use fiber_kcp.Ack.Order.{IsSending, Ascending-length}
use fiber_kcp.Flush.{
  flush, flush_control, flush_segments, fill_window, number, plan_probe, next_probe, send_window,
  wnd_unused, resend_limit, least_rto, adjust, after_skips, after_loss, least_window,
}
use fiber_kcp.Flush.Out.{Output}
use fiber_kcp.Flush.Data.{
  flush_data, flush_one, stamp, retime, reason, Reason, first, timeout, skipped, idle, Round,
}
use fiber_kcp.Flush.Window.{filled, free, numbered, fill_window_lem}

-- A segment without the fields that sending it sets.
abbrev pub body : Segment → Segment
body s = record s { ts = 0; wnd = 0; una = 0; resendts = 0; rto = 0; fastack = 0; xmit = 0 }

-- `ikcp_flush` by its parts.
pub flush_lem :
    (k : Ikcpcb)
    → flush k
      ≡ (if k.updated == 0 then (k, []) else flush_segments (flush_control k).0 (flush_control k).1)
unfolding flush
flush_lem k = refl

pub plan_probe_sets :
    (k : Ikcpcb)
    → (w : ℕ) × (t : ℕ) × (p : ℕ) × (plan_probe k
        ≡ record k { probe_wait = w; ts_probe = t; probe = p })
unfolding plan_probe next_probe
plan_probe_sets k =
    if_cases
      (λ x.
        (w : ℕ) × (t : ℕ) × (p : ℕ) × (x ≡ record k { probe_wait = w; ts_probe = t; probe = p }))
      (k.rmt_wnd == 0) _ _
      (λ _.
        if_cases
          (λ x.
            (w : ℕ) × (t : ℕ) × (p : ℕ) × (x
              ≡ record k { probe_wait = w; ts_probe = t; probe = p }))
          (k.probe_wait == 0) _ _ (λ _. (_, _, _, refl))
          (λ _.
            if_cases
              (λ x.
                (w : ℕ) × (t : ℕ) × (p : ℕ) × (x
                  ≡ record k { probe_wait = w; ts_probe = t; probe = p }))
              (is_neg (itimediff k.current k.ts_probe)) _ _ (λ _. (_, _, _, refl))
              (λ _. (_, _, _, refl))))
      (λ _. (_, _, _, refl))

pub control_sets :
    (k : Ikcpcb)
    → (w : ℕ) × (t : ℕ) × ((flush_control k).0
        ≡ record k { ackcount = 0; probe_wait = w; ts_probe = t; probe = 0 })
unfolding flush_control
control_sets k =
    let (w, t, p, e) = plan_probe_sets (record k { ackcount = 0 }) in
    (w, t, ap (λ (x : Ikcpcb). record x { probe = 0 }) e)

abbrev Adjusts : Ikcpcb → Ikcpcb → Type 0
Adjusts k x = (s : ℕ) × (c : ℕ) × (i : ℕ) × (x ≡ record k { ssthresh = s; cwnd = c; incr = i })

skips_set : (resent change : ℕ) (k : Ikcpcb) → Adjusts k (after_skips resent change k)
unfolding after_skips
skips_set resent change k =
    if_cases (Adjusts k) (change == 0) _ _ (λ _. (_, _, _, refl)) (λ _. (_, _, _, refl))

loss_sets : (cwnd : ℕ) (lost : Bool) (k : Ikcpcb) → Adjusts k (after_loss cwnd lost k)
unfolding after_loss
loss_sets cwnd lost k = if_cases (Adjusts k) lost _ _ (λ _. (_, _, _, refl)) (λ _. (_, _, _, refl))

least_sets : (k : Ikcpcb) → Adjusts k (least_window k)
unfolding least_window
least_sets k = if_cases (Adjusts k) (ltb k.cwnd 1) _ _ (λ _. (_, _, _, refl)) (λ _. (_, _, _, refl))

pub adjust_sets :
    (cwnd resent change : ℕ) (lost : Bool) (k : Ikcpcb)
    → Adjusts k (adjust cwnd resent change lost k)
unfolding adjust
adjust_sets cwnd resent change lost k =
    let (s, c, i, e) = skips_set resent change k in
    let (s', c', i', e') = loss_sets cwnd lost (after_skips resent change k) in
    let (s'', c'', i'', e'') = least_sets (after_loss cwnd lost (after_skips resent change k)) in
    (
      s'',
      c'',
      i'',
      e''
          ∙ ap (λ (x : Ikcpcb). record x { ssthresh = s''; cwnd = c''; incr = i'' })
              (e' ∙ ap (λ (x : Ikcpcb). record x { ssthresh = s'; cwnd = c'; incr = i' }) e),
    )

-- The loop over `snd_buf` sets times and counters only.
body-flush_one :
    (k : Ikcpcb) (wnd resent rtomin : ℕ) (why : Reason) (s : Segment) (r : Round)
    → body (flush_one k wnd resent rtomin why s r).0 ≡ body s
unfolding flush_one stamp retime
body-flush_one k wnd resent rtomin first s r = refl
body-flush_one k wnd resent rtomin timeout s r = refl
body-flush_one k wnd resent rtomin skipped s r = refl
body-flush_one k wnd resent rtomin idle s r = refl

body-flush_data :
    (k : Ikcpcb) (wnd resent rtomin : ℕ) (buf : List Segment) (r : Round)
    → map body (flush_data k wnd resent rtomin buf r).0 ≡ map body buf
unfolding flush_data
body-flush_data k wnd resent rtomin [] r = refl
body-flush_data k wnd resent rtomin (s ∷ buf) r =
    rw (body-flush_one k wnd resent rtomin (reason k resent s) s r)
      (ap (◌∷◌ (body s)) (body-flush_data k wnd resent rtomin buf _))

-- The segments as they go out under new numbers, without the fields that sending them sets.
abbrev pub outgoing : ℕ → ℕ → List Segment → List Segment
outgoing conv nxt [] = []
outgoing conv nxt (s ∷ q) =
    body (record s { conv = conv; cmd = cmd_push; sn = nxt }) ∷ outgoing conv (add32 nxt 1) q

pub body-numbered :
    (k : Ikcpcb) (wnd nxt : ℕ) (q : List Segment)
    → map body (numbered k wnd nxt q) ≡ outgoing k.conv nxt q
unfolding number
body-numbered k wnd nxt [] = refl
body-numbered k wnd nxt (s ∷ q) =
    ap (◌∷◌ (body (record s { conv = k.conv; cmd = cmd_push; sn = nxt })))
      (body-numbered k wnd (add32 nxt 1) q)

pub map-append : (a b : List Segment) → map body (a ++ b) ≡ map body a ++ map body b
map-append [] b = refl
map-append (s ∷ a) b = ap (◌∷◌ (body s)) (map-append a b)

-- The state that a round leaves behind, `taken` having gone from the queue to the buffer.
abbrev pub Flushed : Ikcpcb → List Segment → List Segment → Ikcpcb → Type 0
Flushed k taken rest k' =
    (wnd : ℕ) × (buf : List Segment) × (map body buf
      ≡ map body (k.snd_buf ++ numbered k wnd k.snd_nxt taken))
    × (x : ℕ) × (st : ℕ) × (s : ℕ) × (c : ℕ) × (i : ℕ) × (k' ≡ record (filled k wnd taken rest) {
      snd_buf = buf;
      xmit = x;
      state = st;
      ssthresh = s;
      cwnd = c;
      incr = i;
    })

module _ (k : Ikcpcb) (v : IsSending k) (hc : send_window k < 2 ^ 31)
    (hq : k.nsnd_que < u32_mod) where
  fill_lem :
      fill_window (send_window k) (wnd_unused k) k k.snd_queue
      ≡ filled k
          (wnd_unused k)
          (take (free k (send_window k)) k.snd_queue)
          (drop (free k (send_window k)) k.snd_queue)
  fill_lem =
      fill_window_lem (send_window k) (wnd_unused k) k k.snd_queue hc v.nxt v.una v.span hq
        (omega (arith, v.buffered, Ascending-length k.snd_una 0 k.snd_buf (omega arith) v.ordered))

  pub segments-Flushed :
      (o : Output)
      → Flushed k
          (take (free k (send_window k)) k.snd_queue)
          (drop (free k (send_window k)) k.snd_queue)
          (flush_segments k o).0
  unfolding flush_segments
  segments-Flushed o = rw fill_lem (
      let f =
        filled k (wnd_unused k) (take (free k (send_window k)) k.snd_queue)
          (drop (free k (send_window k)) k.snd_queue) in
      let start : Round = record {
        xmit = f.xmit;
        state = f.state;
        lost = false;
        change = 0;
        out = o;
      } in
      let (s, c, i, e) =
        adjust_sets (send_window k) (resend_limit f)
          (flush_data f (wnd_unused k) (resend_limit f) (least_rto f) f.snd_buf start).1.change
          (flush_data f (wnd_unused k) (resend_limit f) (least_rto f) f.snd_buf start).1.lost _ in
      (
        wnd_unused k,
        _,
        body-flush_data f (wnd_unused k) (resend_limit f) (least_rto f) f.snd_buf start,
        _,
        _,
        s,
        c,
        i,
        e,
      ))
