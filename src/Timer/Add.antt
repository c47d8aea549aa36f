-- ===== src/Timer/Add.antt =====
-- Adding a timer and taking it out again.
use mathlib.Core.List.{Perm}
use fiber_kcp.Prelude.{
  ℕ, ◌-◌, ◌≤◌, ◌<◌, ◌≡◌, ◌≢◌, refl, sym, ◌↔◌, inl, inr, Bool, true, false, not, ◌&&◌, ◌||◌, Option,
  some, List, [], ◌∷◌, All, arith, Bool-cases, ◌==◌, if◌then◌else◌, if_cases,
}
use fiber_kcp.Timer.{
  u64_mod, add64, KTimer, KTimerManager, new_timer, earlier, insert, at_front, add_pointer,
  add_timer, erase_id, del_timer,
}
use fiber_kcp.Timer.Order.{
  IsFresh, IsBefore, IsBefore-asym, All-IsBefore-mono, IsOrdered, insert-Inserts, earlier-IsBefore,
  not_earlier-IsBefore, not_earlier-earlier, All-insert,
}

-- The set is in order, and the counter has passed every number in it.
abbrev pub IsTimed {ℓ} : {A : Type ℓ} → KTimerManager A → Type 0
IsTimed m = IsOrdered m.timers × All (λ t. t.unique_id ≤ m.id_count) m.timers

next_id : (n : ℕ) → n < u64_mod - 1 → n < add64 n 1
unfolding add64
next_id n h = omega arith

module _ {ℓ} {A : Type ℓ} where
  bounded-IsFresh :
      (n id : ℕ) (ts : List (KTimer A)) → n < id → All (λ t. t.unique_id ≤ n) ts → IsFresh id ts
  bounded-IsFresh n id [] h b = tt
  bounded-IsFresh n id (t ∷ ts) h b = ((λ e. omega (arith, b.0)), bounded-IsFresh n id ts h b.1)

  bounded_mono :
      (n n' : ℕ) (ts : List (KTimer A))
      → n ≤ n'
      → All (λ t. t.unique_id ≤ n) ts
      → All (λ t. t.unique_id ≤ n') ts
  bounded_mono n n' [] h b = tt
  bounded_mono n n' (t ∷ ts) h b = (omega (arith, b.0), bounded_mono n n' ts h b.1)

  -- What stands at the front comes before all the others.
  at_front_iff :
      (t : KTimer A) (ts : List (KTimer A))
      → IsFresh t.unique_id ts
      → IsOrdered ts
      → (at_front t ts ≡ true) ↔ All (IsBefore t) ts
  unfolding at_front
  at_front_iff t [] f o = ((λ _. tt), (λ _. refl))
  at_front_iff t (x ∷ xs) f o = (there, back)
    where
      there : not (earlier x t) ≡ true → All (IsBefore t) (x ∷ xs)
      there e =
          let h = not_earlier-IsBefore x t f.0 (ground (arith, e)) in
          (h, All-IsBefore-mono t x xs h o.0)

      back : All (IsBefore t) (x ∷ xs) → not (earlier x t) ≡ true
      back (h, q) = elim (Bool-cases (earlier x t)) [
        | inl e ↦ absurd (IsBefore-asym t x h (earlier-IsBefore x t e))
        | inr e ↦ rw e refl
      ]

  new-IsFresh :
      (m : KTimerManager A)
      → m.id_count < u64_mod - 1
      → IsTimed m
      → IsFresh (add64 m.id_count 1) m.timers
  unfolding add64
  new-IsFresh m h w = bounded-IsFresh m.id_count _ m.timers (omega arith) w.1

  -- A new timer joins the set at its place, and the front is announced exactly if it comes before
  -- all the others and no announcement is pending.
  abbrev pub Adds : KTimerManager A → KTimer A → KTimerManager A × Option (KTimer A) × Bool → Type ℓ
  Adds m t (m', result, announced) =
      IsTimed m'
      × Perm m'.timers (t ∷ m.timers)
      × (result ≡ some t)
      × ((announced ≡ true) ↔ ((m.tickle ≡ false) × All (IsBefore t) m.timers))
      × (m'.tickle ≡ (m.tickle || announced))

  front_announced :
      (tickle : Bool) (t : KTimer A) (ts : List (KTimer A))
      → IsFresh t.unique_id ts
      → IsOrdered ts
      → ((at_front t ts && not tickle) ≡ true) ↔ ((tickle ≡ false) × All (IsBefore t) ts)
  front_announced true t ts f o = ((λ e. absurd (ground arith)), (λ (x, a). absurd (ground arith)))
  front_announced false t ts f o = (
    (λ e. (refl, (at_front_iff t ts f o).0 (ground arith))),
    (λ (x, a). rw ((at_front_iff t ts f o).1 a) refl),
  )

  -- A new timer joins a set that is in order at its place, under a number that no other has, if it
  -- can be allocated and fewer than 2^64 - 1 have been made; the front is announced exactly if the
  -- timer comes before all the others and no announcement is pending since the last look at the
  -- front.
  pub add_timer-Adds :
      (m : KTimerManager A) (now ms : ℕ) (callback : Option A) (recycle thread : ℕ)
      → m.id_count < u64_mod - 1
      → IsTimed m
      → Adds m
          (new_timer now m.id_count ms callback recycle thread)
          (add_timer true m now ms callback recycle thread)
  unfolding add_timer add_pointer new_timer
  add_timer-Adds m now ms callback recycle thread h w =
      let t = new_timer now m.id_count ms callback recycle thread in
      let f = new-IsFresh m h w in
      let n = next_id m.id_count h in
      let (o, p) = insert-Inserts t m.timers f w.0 in
      (
        (
          o,
          All-insert (λ x. x.unique_id ≤ add64 m.id_count 1) t m.timers (omega arith)
              (bounded_mono m.id_count (add64 m.id_count 1) m.timers (omega (arith, n)) w.1),
        ),
        p,
        refl,
        front_announced m.tickle t m.timers f w.0,
        refl,
      )

  erase-insert :
      (t : KTimer A) (ts : List (KTimer A))
      → IsFresh t.unique_id ts
      → IsOrdered ts
      → erase_id t.unique_id (insert t ts) ≡ ts
  unfolding erase_id insert
  erase-insert t [] f o = ground arith
  erase-insert t (x ∷ xs) f o =
      if_cases (λ (s : List (KTimer A)). erase_id t.unique_id s ≡ x ∷ xs) (earlier t x) (t ∷ x ∷ xs)
        (if earlier x t then x ∷ insert t xs else x ∷ xs) (λ e. ground arith)
        (λ e.
          rw (not_earlier-earlier t x (λ q. f.0 (sym q)) e)
            (rw (erase-insert t xs f.1 o.2) (ground (arith, f.0))))

  -- Deleting the timer that was just added leaves the set that was there before.
  pub del_timer-add_timer :
      (m : KTimerManager A) (now ms : ℕ) (callback : Option A) (recycle thread : ℕ)
      → m.id_count < u64_mod - 1
      → IsTimed m
      → (del_timer (add_timer true m now ms callback recycle thread).0 (add64 m.id_count 1)).timers
        ≡ m.timers
  unfolding add_timer add_pointer new_timer del_timer
  del_timer-add_timer m now ms callback recycle thread h w =
      erase-insert (new_timer now m.id_count ms callback recycle thread) m.timers
        (new-IsFresh m h w) w.0

  erase_id-All :
      (P : KTimer A → Type 0) (id : ℕ) (ts : List (KTimer A)) → All P ts → All P (erase_id id ts)
  unfolding erase_id
  erase_id-All P id [] a = tt
  erase_id-All P id (t ∷ ts) a =
      if_cases (All P) (t.unique_id == id) ts (t ∷ erase_id id ts) (λ _. a.1)
        (λ _. (a.0, erase_id-All P id ts a.1))

  erase_id-IsOrdered : (id : ℕ) (ts : List (KTimer A)) → IsOrdered ts → IsOrdered (erase_id id ts)
  unfolding erase_id
  erase_id-IsOrdered id [] o = tt
  erase_id-IsOrdered id (t ∷ ts) o =
      if_cases IsOrdered (t.unique_id == id) ts (t ∷ erase_id id ts) (λ _. o.2)
        (λ _. (
          erase_id-All (IsBefore t) id ts o.0,
          erase_id-All (λ u. u.unique_id ≢ t.unique_id) id ts o.1,
          erase_id-IsOrdered id ts o.2,
        ))

  pub del_timer-IsTimed : (m : KTimerManager A) (id : ℕ) → IsTimed m → IsTimed (del_timer m id)
  unfolding del_timer
  del_timer-IsTimed m id w = (
    erase_id-IsOrdered id m.timers w.0,
    erase_id-All (λ t. t.unique_id ≤ m.id_count) id m.timers w.1,
  )
