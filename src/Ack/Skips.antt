-- ===== src/Ack/Skips.antt =====
-- Counting the acknowledgements that passed a segment by.
use fiber_kcp.Prelude.{
  ℕ, suc, ◌^◌, ◌≤◌, ◌<◌, ◌≡◌, refl, arith, ap, sym, List, [], ◌∷◌, map, ltb, ◌==◌, if◌then◌else◌,
  Bool-cases, inl, inr, is_neg, true, false,
}
use fiber_kcp.Word.{u32_mod, add32, sub32, itimediff}
use fiber_kcp.Word.Serial.{itimediff-is_neg}
use fiber_kcp.Wire.{Segment}
use fiber_kcp.Control.{Ikcpcb}
use fiber_kcp.Ack.{parse_fastack, count_skips, not_sent}
use fiber_kcp.Recv.Order.{Ascending}
use fiber_kcp.Ack.Order.{IsSending}
use fiber_kcp.Ack.Selective.{not_sent_lem}

-- One more skip for a segment before `sn`.
abbrev pub bump : ℕ → ℕ → Segment → Segment
bump base sn s =
    if ltb (sub32 s.sn base) (sub32 sn base) then record s { fastack = add32 s.fastack 1 } else s

none_before :
    (base sn lo : ℕ) (buf : List Segment)
    → sub32 sn base ≤ lo
    → Ascending base lo buf
    → map (bump base sn) buf ≡ buf
none_before base sn lo [] h a = refl
none_before base sn lo (s ∷ buf) h a =
    rw (far, none_before base sn (suc (sub32 s.sn base)) buf (omega (arith, a.1)) a.3) refl
  where
    far : ltb (sub32 s.sn base) (sub32 sn base) ≡ false
    far = ground (arith, a.1)

-- The loop that stops early does what a pass over all segments would.
count_skips-map :
    (base sn lo : ℕ) (buf : List Segment)
    → base < u32_mod
    → sn < u32_mod
    → sub32 sn base < 2 ^ 31
    → Ascending base lo buf
    → count_skips sn buf ≡ map (bump base sn) buf
unfolding count_skips
count_skips-map base sn lo [] hb hs hd a = refl
count_skips-map base sn lo (s ∷ buf) hb hs hd a = elim (Bool-cases (is_neg (itimediff sn s.sn))) [
  | inl before ↦ rw before (
      sym (
        none_before base sn (sub32 s.sn base) (s ∷ buf)
          (ground (arith, itimediff-is_neg base sn s.sn)) (a.0, omega arith, a.2, a.3)))
  | inr after ↦
      rw (after, head (ground (arith, itimediff-is_neg base sn s.sn)))
        (ap (◌∷◌ (bump base sn s))
          (count_skips-map base sn (suc (sub32 s.sn base)) buf hb hs hd a.3))
]
  where
    head :
        sub32 s.sn base ≤ sub32 sn base
        → (if sn == s.sn then s else record s { fastack = add32 s.fastack 1 }) ≡ bump base sn s
    head le = elim (Bool-cases (sn == s.sn)) [
      | inl same ↦ rw (same, equal (ground arith)) refl
      | inr other ↦ rw (other, less (λ e. ground arith)) refl
    ]
      where
        equal : sn ≡ s.sn → ltb (sub32 s.sn base) (sub32 sn base) ≡ false
        equal e = ground arith

        less : (sn ≡ s.sn → ⊥) → ltb (sub32 s.sn base) (sub32 sn base) ≡ true
        less ne = ground (arith, ne)

-- On a well-formed sending side, for an acknowledged number that has been sent, exactly the
-- segments of snd_buf before it count one more skip, although the loop stops at the first one
-- behind; any other number changes nothing.
pub parse_fastack_lem :
    (k : Ikcpcb) (sn : ℕ)
    → IsSending k
    → sn < u32_mod
    → parse_fastack k sn ≡ (
        if ltb (sub32 sn k.snd_una) (sub32 k.snd_nxt k.snd_una)
        then record k { snd_buf = map (bump k.snd_una sn) k.snd_buf }
        else k)
unfolding parse_fastack
parse_fastack_lem k sn v hs = elim (Bool-cases (not_sent k sn)) [
  | inl out ↦ rw (out, far (ground (arith, not_sent_lem k sn v hs))) refl
  | inr known ↦
      rw (known, near (ground (arith, not_sent_lem k sn v hs)))
        (ap (λ l. record k { snd_buf = l })
          (count_skips-map k.snd_una sn 0 k.snd_buf v.una hs
            (ground (arith, v.span, not_sent_lem k sn v hs)) v.ordered))
]
  where
    far :
        sub32 k.snd_nxt k.snd_una ≤ sub32 sn k.snd_una
        → ltb (sub32 sn k.snd_una) (sub32 k.snd_nxt k.snd_una) ≡ false
    far h = ground arith

    near :
        sub32 sn k.snd_una < sub32 k.snd_nxt k.snd_una
        → ltb (sub32 sn k.snd_una) (sub32 k.snd_nxt k.snd_una) ≡ true
    near h = ground arith
