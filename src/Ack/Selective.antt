-- ===== src/Ack/Selective.antt =====
-- An acknowledgement of one number.
use fiber_kcp.Prelude.{
  ℕ, suc, ◌^◌, ◌≤◌, ◌<◌, ◌≡◌, ◌≢◌, refl, arith, ap, sym, subst, List, [], ◌∷◌, ◌++◌, All, length,
  ◌⊎◌, inl, inr, Bool-cases, is_neg, leb, ◌==◌, length-append,
}
use fiber_kcp.Word.{u32_mod, sub32, itimediff}
use fiber_kcp.Word.Serial.{itimediff-is_neg}
use fiber_kcp.Wire.{Segment}
use fiber_kcp.Control.{Ikcpcb}
use fiber_kcp.Ack.{parse_ack, shrink_buf, remove_sn, not_sent}
use fiber_kcp.Recv.Order.{Ascending, Ascending-mono, HasSn}
use fiber_kcp.Ack.Order.{IsSending, Ascending-length, Leads, shrink_buf-IsSending, shrink_buf-Leads}

-- The segment with the number is taken out, or there is none.
abbrev pub Removed : ℕ → ℕ → List Segment → ℕ × List Segment → Type 0
Removed sn n buf r =
    ((a : List Segment) × (s : Segment) × (b : List Segment) × (s.sn ≡ sn)
      × (buf ≡ a ++ (s ∷ b))
      × (r.1 ≡ a ++ b)
      × (r.0 ≡ sub32 n 1))
    ⊎ ((¬ HasSn sn buf) × (r.0 ≡ n) × (r.1 ≡ buf))

absent :
    (base sn lo : ℕ) (buf : List Segment)
    → sub32 sn base < lo
    → Ascending base lo buf
    → ¬ HasSn sn buf
absent base sn lo [] h a m = m
absent base sn lo (s ∷ buf) h a (inl e) = ground arith
absent base sn lo (s ∷ buf) h a (inr m) =
    absent base sn (suc (sub32 s.sn base)) buf (omega (arith, a.1)) a.3 m

remove_sn-Removed :
    (base sn lo n : ℕ) (buf : List Segment)
    → base < u32_mod
    → sn < u32_mod
    → sub32 sn base < 2 ^ 31
    → Ascending base lo buf
    → Removed sn n buf (remove_sn sn n buf)
unfolding remove_sn
remove_sn-Removed base sn lo n [] hb hs hd a = inr (λ m. m, refl, refl)
remove_sn-Removed base sn lo n (s ∷ buf) hb hs hd a = elim (Bool-cases (sn == s.sn)) [
  | inl same ↦ rw same (inl ([], s, buf, ground arith, refl, refl, refl))
  | inr other ↦ rw other (elim (Bool-cases (is_neg (itimediff sn s.sn))) [
    | inl before ↦ rw before (
        inr (
          absent base sn (sub32 s.sn base) (s ∷ buf) (ground (arith, itimediff-is_neg base sn s.sn))
              (a.0, omega arith, a.2, a.3),
          refl,
          refl,
        ))
    | inr after ↦ rw after (
        deeper s (λ e. ground arith)
          (remove_sn-Removed base sn (suc (sub32 s.sn base)) n buf hb hs hd a.3))
  ])
]
  where
    deeper :
        (t : Segment) {r : ℕ × List Segment}
        → t.sn ≢ sn
        → Removed sn n buf r
        → Removed sn n (t ∷ buf) (r.0, t ∷ r.1)
    deeper t ne (inl (x, u, y, e, p, q, c)) = inl (t ∷ x, u, y, e, ap (◌∷◌ t) p, ap (◌∷◌ t) q, c)
    deeper t ne (inr (m, c, q)) = inr (λ h. elim h [ inl e ↦ ne e | inr k ↦ m k ], c, ap (◌∷◌ t) q)

Ascending-drop :
    (base lo : ℕ) (a : List Segment) (s : Segment) (b : List Segment)
    → Ascending base lo (a ++ (s ∷ b))
    → Ascending base lo (a ++ b)
Ascending-drop base lo [] s b h =
    Ascending-mono base (suc (sub32 s.sn base)) lo b (omega (arith, h.1)) h.3
Ascending-drop base lo (t ∷ a) s b h =
    (h.0, h.1, h.2, Ascending-drop base (suc (sub32 t.sn base)) a s b h.3)

All-drop :
    (P : Segment → Type 0) (a : List Segment) (s : Segment) (b : List Segment)
    → All P (a ++ (s ∷ b))
    → All P (a ++ b)
All-drop P [] s b h = h.1
All-drop P (t ∷ a) s b h = (h.0, All-drop P a s b h.1)

pub not_sent_lem :
    (k : Ikcpcb) (sn : ℕ)
    → IsSending k
    → sn < u32_mod
    → not_sent k sn ≡ leb (sub32 k.snd_nxt k.snd_una) (sub32 sn k.snd_una)
unfolding not_sent itimediff
not_sent_lem k sn v h = ground (arith, v.span, v.una, v.nxt)

module _ (k : Ikcpcb) (sn : ℕ) (v : IsSending k) (hs : sn < u32_mod) where
  abbrev Below : Segment → Type 0
  Below s = sub32 s.sn k.snd_una < sub32 k.snd_nxt k.snd_una

  Removed-IsSending :
      (r : ℕ × List Segment)
      → Removed sn k.nsnd_buf k.snd_buf r
      → IsSending (record k { nsnd_buf = r.0; snd_buf = r.1 })
  Removed-IsSending r (inl (a, s, b, e, p, q, c)) = record {
    una = v.una;
    nxt = v.nxt;
    span = v.span;
    buffered = omega (
      arith,
      c,
      v.buffered,
      ap length p,
      ap length q,
      length-append a (s ∷ b),
      length-append a b,
      Ascending-length k.snd_una 0 k.snd_buf (omega arith) v.ordered,
    );
    ordered =
        subst (Ascending k.snd_una 0) (sym q)
          (Ascending-drop k.snd_una 0 a s b (subst (Ascending k.snd_una 0) p v.ordered));
    sent = subst (All Below) (sym q) (All-drop Below a s b (subst (All Below) p v.sent));
  }
  Removed-IsSending r (inr (m, c, q)) = record {
    una = v.una;
    nxt = v.nxt;
    span = v.span;
    buffered = omega (arith, c, v.buffered, ap length q);
    ordered = subst (Ascending k.snd_una 0) (sym q) v.ordered;
    sent = subst (All Below) (sym q) v.sent;
  }

  -- On a well-formed sending side an acknowledgement of a number that has been sent and lies
  -- behind snd_una takes the segment with that number out of snd_buf, if it is there, and no
  -- other; the counter follows, snd_una is then the number of the first segment left, or snd_nxt
  -- if there is none, and the sending side stays well formed. Any other number changes nothing
  -- before snd_una is set anew.
  pub parse_ack_acknowledges :
      ((sub32 sn k.snd_una < sub32 k.snd_nxt k.snd_una)
        × Removed sn k.nsnd_buf k.snd_buf ((parse_ack k sn).nsnd_buf, (parse_ack k sn).snd_buf)
        × Leads
            (shrink_buf (parse_ack k sn)).snd_una
            (shrink_buf (parse_ack k sn)).snd_nxt
            (shrink_buf (parse_ack k sn)).snd_buf
        × IsSending (shrink_buf (parse_ack k sn)))
      ⊎ ((sub32 k.snd_nxt k.snd_una ≤ sub32 sn k.snd_una) × (parse_ack k sn ≡ k))
  unfolding parse_ack
  parse_ack_acknowledges = elim (Bool-cases (not_sent k sn)) [
    | inl out ↦ rw out (inr (ground (arith, not_sent_lem k sn v hs), refl))
    | inr known ↦ rw known (
        inl (
          ground (arith, not_sent_lem k sn v hs),
          taken (ground (arith, not_sent_lem k sn v hs)),
          shrink_buf-Leads (record k {
            nsnd_buf = (remove_sn sn k.nsnd_buf k.snd_buf).0;
            snd_buf = (remove_sn sn k.nsnd_buf k.snd_buf).1;
          }),
          (shrink_buf-IsSending _
              (Removed-IsSending _ (taken (ground (arith, not_sent_lem k sn v hs))))).0,
        ))
  ]
    where
      taken :
          sub32 sn k.snd_una < sub32 k.snd_nxt k.snd_una
          → Removed sn k.nsnd_buf k.snd_buf (remove_sn sn k.nsnd_buf k.snd_buf)
      taken h =
          remove_sn-Removed k.snd_una sn 0 k.nsnd_buf k.snd_buf v.una hs (omega (arith, v.span))
            v.ordered
