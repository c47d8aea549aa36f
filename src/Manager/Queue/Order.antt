-- ===== src/Manager/Queue/Order.antt =====
-- The search of the map, which is in the order of the sockets.
use fiber_kcp.Prelude.{
  ℕ, ◌<◌, ◌≡◌, refl, ap, ◌⊎◌, inl, inr, true, false, Option, none, some, List, [], ◌∷◌, ◌++◌, All,
  arith, ltb, ◌==◌, Bool-cases,
}
use fiber_kcp.Manager.Queue.{
  Entry, Place, taken, vacant, compare_fd, stop_at, pass_entry, place_behind, find_place,
}

-- The sockets rise strictly.
abbrev pub IsMap : List Entry → Type 0
IsMap [] = Unit
IsMap (e ∷ es) = All (λ x. e.fd < x.fd) es × IsMap es

-- An object with the socket waits.
abbrev pub HasFd : ℕ → List Entry → Type 0
HasFd fd [] = ⊥
HasFd fd (e ∷ es) = (e.fd ≡ fd) ⊎ HasFd fd es

-- The search fails its assertion if the socket is there, and finds a vacant place if not.
abbrev pub Searched : ℕ → List Entry → Option Place → Type 0
Searched fd es none = HasFd fd es
Searched fd es (some (taken before behind x)) = ⊥
Searched fd es (some (vacant before behind)) =
    (es ≡ before ++ behind)
    × (¬ HasFd fd es)
    × All (λ x. x.fd < fd) before
    × All (λ x. fd < x.fd) behind

above : (a b : ℕ) (es : List Entry) → a < b → All (λ x. b < x.fd) es → All (λ x. a < x.fd) es
above a b [] h q = tt
above a b (e ∷ es) h q = (omega (arith, q.0), above a b es h q.1)

above_none : (fd : ℕ) (es : List Entry) → All (λ x. fd < x.fd) es → ¬ HasFd fd es
above_none fd [] q m = m
above_none fd (e ∷ es) q (inl x) = omega (arith, q.0)
above_none fd (e ∷ es) q (inr m) = above_none fd es q.1 m

pass_entry-Searched :
    (fd : ℕ) (e : Entry) (es : List Entry) (later : Option Place)
    → e.fd < fd
    → Searched fd es later
    → Searched fd (e ∷ es) (pass_entry fd e es later (some true))
unfolding pass_entry place_behind
pass_entry-Searched fd e es none h s = inr s
pass_entry-Searched fd e es (some (taken before behind x)) h s = s
pass_entry-Searched fd e es (some (vacant before behind)) h (q, n, b, a) =
    (ap (◌∷◌ e) q, other, (h, b), a)
  where
    other : ¬ HasFd fd (e ∷ es)
    other (inl x) = omega arith
    other (inr m) = n m

pub find_place-Searched : (fd : ℕ) (es : List Entry) → IsMap es → Searched fd es (find_place fd es)
unfolding find_place pass_entry stop_at compare_fd
find_place-Searched fd [] m = (refl, (λ h. h), tt, tt)
find_place-Searched fd (e ∷ es) m = elim (Bool-cases (e.fd == fd)) [
  | inl x ↦ rw x (inl (ground arith))
  | inr x ↦ elim (Bool-cases (ltb e.fd fd)) [
    | inl y ↦
        rw (x, y)
          (pass_entry-Searched fd e es (find_place fd es) (ground arith)
            (find_place-Searched fd es m.1))
    | inr y ↦
        let h : fd < e.fd = ground arith in
        let z : (fd == e.fd) ≡ false = ground arith in
        let z' : ltb fd e.fd ≡ true = ground arith in
        let a : All (λ x. fd < x.fd) (e ∷ es) = (h, above fd e.fd es h m.0) in
        rw (x, y, z, z') (refl, above_none fd (e ∷ es) a, tt, a)
  ]
]
