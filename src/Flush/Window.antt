-- ===== src/Flush/Window.antt =====
-- The segments that pass from `snd_queue` to `snd_buf`.
use fiber_kcp.Prelude.{
  ℕ, zero, suc, ◌+◌, ◌-◌, ◌^◌, ◌≤◌, ◌<◌, ◌≡◌, refl, arith, ap, sym, ◌∙◌, subst, ltb, Bool-cases,
  inl, inr, List, [], ◌∷◌, ◌++◌, All, All-append, length, length-append, length-take, take, drop,
  is_neg, false, append-nil, append_assoc,
}
use fiber_kcp.Word.{u32_mod, add32, sub32, itimediff}
use fiber_kcp.Wire.{Segment}
use fiber_kcp.Control.{Ikcpcb}
use fiber_kcp.Recv.Order.{Ascending, Ascending-mono}
use fiber_kcp.Ack.Order.{IsSending, Ascending-length}
use fiber_kcp.Flush.{fill_window, number}

-- The segments as they enter `snd_buf`, numbered from `nxt` on.
abbrev pub numbered : Ikcpcb → ℕ → ℕ → List Segment → List Segment
numbered k wnd nxt [] = []
numbered k wnd nxt (s ∷ q) =
    number (record k { snd_nxt = nxt }) wnd s ∷ numbered k wnd (add32 nxt 1) q

-- The control block once `taken` has gone over and `rest` stays.
abbrev pub filled : Ikcpcb → ℕ → List Segment → List Segment → Ikcpcb
filled k wnd taken rest = record k {
  snd_queue = rest;
  snd_buf = k.snd_buf ++ numbered k wnd k.snd_nxt taken;
  nsnd_que = sub32 k.nsnd_que (length taken);
  nsnd_buf = add32 k.nsnd_buf (length taken);
  snd_nxt = add32 k.snd_nxt (length taken);
}

-- What the window still admits.
abbrev pub free : Ikcpcb → ℕ → ℕ
free k cwnd = cwnd - sub32 k.snd_nxt k.snd_una

admits :
    (k : Ikcpcb) (cwnd : ℕ)
    → k.snd_nxt < u32_mod
    → k.snd_una < u32_mod
    → sub32 k.snd_nxt k.snd_una < 2 ^ 31
    → cwnd < 2 ^ 31
    → is_neg (itimediff k.snd_nxt (add32 k.snd_una cwnd)) ≡ ltb 0 (free k cwnd)
unfolding itimediff
admits k cwnd hn hu hi hc = ground arith

abbrev step : Ikcpcb → ℕ → Segment → Ikcpcb
step k wnd s = record k {
  snd_buf = k.snd_buf ++ (number k wnd s ∷ []);
  nsnd_que = sub32 k.nsnd_que 1;
  nsnd_buf = add32 k.nsnd_buf 1;
  snd_nxt = add32 k.snd_nxt 1;
}

numbered-step :
    (k : Ikcpcb) (wnd nxt : ℕ) (s : Segment) (q : List Segment)
    → numbered (step k wnd s) wnd nxt q ≡ numbered k wnd nxt q
unfolding number
numbered-step k wnd nxt s [] = refl
numbered-step k wnd nxt s (t ∷ q) =
    ap (◌∷◌ (number (record k { snd_nxt = nxt }) wnd t)) (numbered-step k wnd (add32 nxt 1) s q)

-- One segment more.
filled-step :
    (k : Ikcpcb) (wnd : ℕ) (s : Segment) (taken rest : List Segment)
    → k.nsnd_que < u32_mod
    → suc (length taken) ≤ 2 ^ 31
    → filled (step k wnd s) wnd taken rest ≡ filled k wnd (s ∷ taken) rest
filled-step k wnd s taken rest hq hl = rw (bufs, counts_que, counts_buf, counts_nxt) refl
  where
    bufs :
        (k.snd_buf ++ (number k wnd s ∷ []))
          ++ numbered (step k wnd s) wnd (add32 k.snd_nxt 1) taken
        ≡ k.snd_buf ++ (number k wnd s ∷ numbered k wnd (add32 k.snd_nxt 1) taken)
    bufs =
        append_assoc k.snd_buf _ _
        ∙ ap (λ l. k.snd_buf ++ (number k wnd s ∷ l))
            (numbered-step k wnd (add32 k.snd_nxt 1) s taken)

    counts_que : sub32 (sub32 k.nsnd_que 1) (length taken) ≡ sub32 k.nsnd_que (suc (length taken))
    counts_que = omega arith

    counts_buf : add32 (add32 k.nsnd_buf 1) (length taken) ≡ add32 k.nsnd_buf (suc (length taken))
    counts_buf = omega arith

    counts_nxt : add32 (add32 k.snd_nxt 1) (length taken) ≡ add32 k.snd_nxt (suc (length taken))
    counts_nxt = omega arith

filled-none :
    (k : Ikcpcb) (wnd : ℕ) (rest : List Segment)
    → k.nsnd_que < u32_mod
    → k.nsnd_buf < u32_mod
    → k.snd_nxt < u32_mod
    → filled k wnd [] rest ≡ record k { snd_queue = rest }
filled-none k wnd rest hq hb hn = rw (append-nil k.snd_buf, q, b, n) refl
  where
    q : sub32 k.nsnd_que 0 ≡ k.nsnd_que
    q = omega arith

    b : add32 k.nsnd_buf 0 ≡ k.nsnd_buf
    b = omega arith

    n : add32 k.snd_nxt 0 ≡ k.snd_nxt
    n = omega arith

nothing_to_take :
    (cwnd wnd : ℕ) (k : Ikcpcb) (n : ℕ)
    → k.snd_nxt < u32_mod
    → k.nsnd_que < u32_mod
    → k.nsnd_buf < u32_mod
    → record k { snd_queue = [] } ≡ filled k wnd (take n []) (drop n [])
nothing_to_take cwnd wnd k zero hn hq hb = sym (filled-none k wnd [] hq hb hn)
nothing_to_take cwnd wnd k (suc n) hn hq hb = sym (filled-none k wnd [] hq hb hn)

-- As many segments as the window admits leave the queue from its head, in their order, and are
-- numbered consecutively behind those in flight; the others stay.
pub fill_window_lem :
    (cwnd wnd : ℕ) (k : Ikcpcb) (q : List Segment)
    → cwnd < 2 ^ 31
    → k.snd_nxt < u32_mod
    → k.snd_una < u32_mod
    → sub32 k.snd_nxt k.snd_una < 2 ^ 31
    → k.nsnd_que < u32_mod
    → k.nsnd_buf < u32_mod
    → fill_window cwnd wnd k q ≡ filled k wnd (take (free k cwnd) q) (drop (free k cwnd) q)
unfolding fill_window
fill_window_lem cwnd wnd k [] hc hn hu hi hq hb = nothing_to_take cwnd wnd k (free k cwnd) hn hq hb
fill_window_lem cwnd wnd k (s ∷ q) hc hn hu hi hq hb = elim (Bool-cases (ltb 0 (free k cwnd))) [
  | inl room ↦
      rw (admits k cwnd hn hu hi hc, room, more (ground arith))
        (fill_window_lem cwnd wnd (step k wnd s) q hc (omega arith) hu (ground arith) (omega arith)
            (omega arith)
          ∙ filled-step k wnd s _ _ hq (omega (arith, length-take (free (step k wnd s) cwnd) q)))
  | inr full ↦
      rw (admits k cwnd hn hu hi hc, full, less (ground arith))
        (sym (filled-none k wnd (s ∷ q) hq hb hn))
]
  where
    more : 0 < free k cwnd → free k cwnd ≡ suc (free (step k wnd s) cwnd)
    more h = omega arith

    less : ltb 0 (free k cwnd) ≡ false → free k cwnd ≡ 0
    less h = ground arith

numbered-Ascending :
    (k : Ikcpcb) (wnd base nxt : ℕ) (q : List Segment)
    → nxt < u32_mod
    → base < u32_mod
    → sub32 nxt base + length q < 2 ^ 31
    → Ascending base (sub32 nxt base) (numbered k wnd nxt q)
      × All (λ s. sub32 s.sn base < sub32 nxt base + length q) (numbered k wnd nxt q)
unfolding number
numbered-Ascending k wnd base nxt [] hn hb h = (tt, tt)
numbered-Ascending k wnd base nxt (s ∷ q) hn hb h =
    let (a, all) = numbered-Ascending k wnd base (add32 nxt 1) q (omega arith) hb (omega arith) in
    (
      (
        hn,
        omega arith,
        omega arith,
        subst (λ n. Ascending base n (numbered k wnd (add32 nxt 1) q)) (omega arith) a,
      ),
      (
        omega arith,
        subst (λ n. All (λ s. sub32 s.sn base < n) (numbered k wnd (add32 nxt 1) q)) (omega arith)
            all,
      ),
    )

Ascending-append :
    (base lo d : ℕ) (a b : List Segment)
    → lo ≤ d
    → Ascending base lo a
    → All (λ s. sub32 s.sn base < d) a
    → Ascending base d b
    → Ascending base lo (a ++ b)
Ascending-append base lo d [] b h p all q = Ascending-mono base d lo b h q
Ascending-append base lo d (s ∷ a) b h p all q =
    (p.0, p.1, p.2, Ascending-append base (suc (sub32 s.sn base)) d a b all.0 p.3 all.1 q)

All-further :
    (base d d' : ℕ) (a : List Segment)
    → d ≤ d'
    → All (λ s. sub32 s.sn base < d) a
    → All (λ s. sub32 s.sn base < d') a
All-further base d d' [] h all = tt
All-further base d d' (s ∷ a) h all = (omega (arith, all.0), All-further base d d' a h all.1)

length-numbered :
    (k : Ikcpcb) (wnd nxt : ℕ) (q : List Segment) → length (numbered k wnd nxt q) ≡ length q
length-numbered k wnd nxt [] = refl
length-numbered k wnd nxt (s ∷ q) = ap suc (length-numbered k wnd (add32 nxt 1) q)

pub filled-IsSending :
    (k : Ikcpcb) (wnd : ℕ) (taken rest : List Segment)
    → IsSending k
    → sub32 k.snd_nxt k.snd_una + length taken < 2 ^ 31
    → IsSending (filled k wnd taken rest)
filled-IsSending k wnd taken rest v h = record {
  una = v.una;
  nxt = omega arith;
  span = omega (arith, v.una, v.nxt);
  buffered = omega (
    arith,
    v.buffered,
    length-append k.snd_buf (numbered k wnd k.snd_nxt taken),
    length-numbered k wnd k.snd_nxt taken,
    Ascending-length k.snd_una 0 k.snd_buf (omega arith) v.ordered,
  );
  ordered =
      Ascending-append k.snd_una 0 (sub32 k.snd_nxt k.snd_una) k.snd_buf _ (omega arith) v.ordered
        v.sent new.0;
  sent =
      All-append (λ s. sub32 s.sn k.snd_una < sub32 (add32 k.snd_nxt (length taken)) k.snd_una)
        k.snd_buf _
        (All-further k.snd_una (sub32 k.snd_nxt k.snd_una) _ k.snd_buf (omega (arith, v.una, v.nxt))
          v.sent)
        (All-further k.snd_una (sub32 k.snd_nxt k.snd_una + length taken) _ _
          (omega (arith, v.una, v.nxt)) new.1);
}
  where
    new :
        Ascending k.snd_una (sub32 k.snd_nxt k.snd_una) (numbered k wnd k.snd_nxt taken)
        × All
            (λ s. sub32 s.sn k.snd_una < sub32 k.snd_nxt k.snd_una + length taken)
            (numbered k wnd k.snd_nxt taken)
    new = numbered-Ascending k wnd k.snd_una k.snd_nxt taken v.nxt v.una h
