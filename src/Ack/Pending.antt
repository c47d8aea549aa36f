-- ===== src/Ack/Pending.antt =====
-- The acknowledgements that are still to be sent back.
use fiber_kcp.Prelude.{
  ℕ, zero, suc, ◌*◌, ◌^◌, ◌≤◌, ◌<◌, ◌≡◌, refl, arith, ap, subst, true, ltb, if_cases, List, [], ◌∷◌,
  ◌++◌, length, take,
}
use fiber_kcp.Word.{add32, mul32}
use fiber_kcp.Control.{Ikcpcb}
use fiber_kcp.Ack.{ack_push, grow_block, write_at}

-- The pairs of a number and a time that `acklist` holds.
abbrev pub pending : Ikcpcb → List (ℕ × ℕ)
pending k = take k.ackcount k.acklist

-- The counted pairs lie within the block.
pub record IsPending (k : Ikcpcb) : Type 0 where
  pub written : k.ackcount ≤ length k.acklist
  pub room : k.ackcount ≤ k.ackblock

doubled : ℕ → ℕ → ℕ
doubled zero b = b
doubled (suc fuel) b = doubled fuel (b * 2)

-- Doubling stops at a block that is large enough, before it wraps.
grow_block_enough : (fuel b n : ℕ) → n ≤ 2 ^ 31 → n ≤ doubled fuel b → n ≤ grow_block fuel b n
unfolding grow_block doubled
grow_block_enough zero b n h l = l
grow_block_enough (suc fuel) b n h l =
    if_cases (λ x. n ≤ x) (ltb b n) _ _
      (λ less.
        subst (λ x. n ≤ grow_block fuel x n) (exact less) (grow_block_enough fuel (b * 2) n h l))
      (λ enough. ground arith)
  where
    exact : ltb b n ≡ true → b * 2 ≡ mul32 b 2
    exact less = ground arith

take-write_at :
    (xs : List (ℕ × ℕ)) (n : ℕ) (x : ℕ × ℕ)
    → n ≤ length xs
    → (take (suc n) (write_at xs n x) ≡ take n xs ++ (x ∷ [])) × (suc n ≤ length (write_at xs n x))
unfolding write_at
take-write_at [] zero x h = (refl, omega arith)
take-write_at [] (suc n) x h = absurd (omega arith)
take-write_at (y ∷ xs) zero x h = (refl, omega arith)
take-write_at (y ∷ xs) (suc n) x h =
    let (t, l) = take-write_at xs n x (omega arith) in (ap (◌∷◌ y) t, omega (arith, l))

-- While fewer than 2^31 are pending and they lie within their block, ikcp_ack_push appends the
-- pair to the pending ones, and the block has room for all of them; a block that is too small is
-- replaced by one that is large enough.
pub ack_push_appends :
    (k : Ikcpcb) (sn ts : ℕ)
    → IsPending k
    → k.ackcount < 2 ^ 31
    → (pending (ack_push k sn ts) ≡ pending k ++ ((sn, ts) ∷ [])) × IsPending (ack_push k sn ts)
unfolding ack_push doubled
ack_push_appends k sn ts v h = (
  subst (λ n. take n (write_at k.acklist k.ackcount (sn, ts)) ≡ pending k ++ ((sn, ts) ∷ []))
      one_more w.0,
  record {
    written = omega (arith, w.1);
    room =
        if_cases (λ x. add32 k.ackcount 1 ≤ x) (ltb k.ackblock (add32 k.ackcount 1)) _ _
          (λ _.
            grow_block_enough 30 8 (add32 k.ackcount 1) (omega arith)
              (enough (add32 k.ackcount 1) (omega arith)))
          (λ fits. ground arith);
  },
)
  where
    w :
        (take (suc k.ackcount) (write_at k.acklist k.ackcount (sn, ts))
          ≡ take k.ackcount k.acklist ++ ((sn, ts) ∷ []))
        × (suc k.ackcount ≤ length (write_at k.acklist k.ackcount (sn, ts)))
    w = take-write_at k.acklist k.ackcount (sn, ts) v.written

    one_more : suc k.ackcount ≡ add32 k.ackcount 1
    one_more = omega arith

    enough : (n : ℕ) → n ≤ 2 ^ 31 → n ≤ doubled 30 8
    enough n l = omega arith
