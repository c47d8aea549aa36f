-- ===== src/Manager/Contexts/Resize.antt =====
-- The table of contexts, when a socket beyond its end is registered.
use fiber_kcp.Prelude.{
  ℕ, zero, suc, ◌-◌, ◌*◌, ◌/◌, ◌≤◌, ◌<◌, ◌≡◌, ◌≢◌, refl, sym, ◌∙◌, ap, subst, Option, none, some,
  ◌>>=◌, [], ◌∷◌, ◌++◌, length, length-append, take, take-all, All, arith, leb, ◌==◌, if_cases,
}
use fiber_kcp.Manager.Contexts.{
  Context, Table, fill_table, nulls, context_resize, context_at, ensure, find_context, put_context,
}

-- No pointer of the table is null.
abbrev pub IsFilled : Table → Type 0
IsFilled cs = All (λ c. c ≢ none) cs

length-fill_table : (i : ℕ) (cs : Table) → length (fill_table i cs) ≡ length cs
unfolding fill_table
length-fill_table i [] = refl
length-fill_table i (none ∷ cs) = ap suc (length-fill_table (suc i) cs)
length-fill_table i (some c ∷ cs) = ap suc (length-fill_table i cs)

fill_table-IsFilled : (i : ℕ) (cs : Table) → IsFilled (fill_table i cs)
unfolding fill_table
fill_table-IsFilled i [] = tt
fill_table-IsFilled i (none ∷ cs) = ((λ e. cc), fill_table-IsFilled (suc i) cs)
fill_table-IsFilled i (some c ∷ cs) = ((λ e. cc), fill_table-IsFilled i cs)

length-nulls : (n : ℕ) → length (nulls n) ≡ n
length-nulls zero = refl
length-nulls (suc n) = ap suc (length-nulls n)

-- A context that stands in the table stays where it is.
fill_table_keeps :
    (i : ℕ) (cs rest : Table) (j : ℕ)
    → IsFilled cs
    → j < length cs
    → context_at j (fill_table i (cs ++ rest)) ≡ context_at j cs
unfolding fill_table context_at
fill_table_keeps i [] rest j f h = absurd (omega arith)
fill_table_keeps i (none ∷ cs) rest j f h = absurd (f.0 refl)
fill_table_keeps i (some c ∷ cs) rest zero f h = refl
fill_table_keeps i (some c ∷ cs) rest (suc j) f h = fill_table_keeps i cs rest j f.1 (omega arith)

context_at-inside :
    (fd : ℕ) (cs : Table)
    → IsFilled cs
    → fd < length cs
    → (c : Context) × (context_at fd cs ≡ some (some c))
unfolding context_at
context_at-inside fd [] f h = absurd (omega arith)
context_at-inside zero (none ∷ cs) f h = absurd (f.0 refl)
context_at-inside zero (some c ∷ cs) f h = (c, refl)
context_at-inside (suc fd) (c ∷ cs) f h = context_at-inside fd cs f.1 (omega arith)

-- Once the table has been made to take the socket, it has a context for it, no pointer is null, and
-- the contexts that stood in it stand where they were.
abbrev pub Takes : ℕ → Table → Table → Type 0
Takes fd cs cs' =
    IsFilled cs'
    × (fd < length cs')
    × (length cs ≤ length cs')
    × ((j : ℕ) → j < length cs → context_at j cs' ≡ context_at j cs)

grown-Takes :
    (fd size : ℕ) (cs : Table)
    → IsFilled cs
    → fd < size
    → length cs < size
    → Takes fd cs (context_resize size cs)
unfolding context_resize
grown-Takes fd size cs f h h' =
    if_cases (Takes fd cs) (size == length cs) cs
      (fill_table 0 (take size cs ++ nulls (size - length cs))) (λ e. absurd (ground arith))
      (λ _.
        let rest = nulls (size - length cs) in
        let e = ap (λ t. fill_table 0 (t ++ rest)) (take-all size cs (omega arith)) in
        let n : length (fill_table 0 (cs ++ rest)) ≡ size =
          length-fill_table 0 (cs ++ rest)
          ∙ length-append cs rest
          ∙ omega (arith, length-nulls (size - length cs)) in
        subst (Takes fd cs) (sym e) (
          fill_table-IsFilled 0 (cs ++ rest),
          omega (arith, n),
          omega (arith, n),
          λ j q. fill_table_keeps 0 cs rest j f q,
        ))

pub ensure-Takes : (fd : ℕ) (cs : Table) → 2 ≤ fd → IsFilled cs → Takes fd cs (ensure fd cs)
unfolding ensure
ensure-Takes fd cs h f =
    if_cases (Takes fd cs) (leb (length cs) fd) (context_resize (3 * fd / 2) cs) cs
      (λ e. grown-Takes fd (3 * fd / 2) cs f (omega arith) (ground arith))
      (λ e. (f, ground arith, omega arith, λ j q. refl))

pub find_context-some :
    (fd : ℕ) (cs : Table)
    → IsFilled cs
    → fd < length cs
    → (c : Context) × (find_context fd cs ≡ some c)
unfolding find_context
find_context-some fd cs f h =
    let (c, e) = context_at-inside fd cs f h in
    (c, ap (λ (r : Option (Option Context)). r >>= λ x. x) e)

pub find_context-put_context :
    (fd : ℕ) (c : Context) (cs : Table)
    → fd < length cs
    → find_context fd (put_context fd c cs) ≡ some c
unfolding find_context context_at put_context
find_context-put_context fd c [] h = absurd (omega arith)
find_context-put_context zero c (x ∷ cs) h = refl
find_context-put_context (suc fd) c (x ∷ cs) h = find_context-put_context fd c cs (omega arith)

pub put_context_other :
    (fd j : ℕ) (c : Context) (cs : Table)
    → j ≢ fd
    → context_at j (put_context fd c cs) ≡ context_at j cs
unfolding context_at put_context
put_context_other fd j c [] n = refl
put_context_other zero zero c (x ∷ cs) n = absurd (n refl)
put_context_other zero (suc j) c (x ∷ cs) n = refl
put_context_other (suc fd) zero c (x ∷ cs) n = refl
put_context_other (suc fd) (suc j) c (x ∷ cs) n = put_context_other fd j c cs (λ e. n (ap suc e))

pub put_context-IsFilled :
    (fd : ℕ) (c : Context) (cs : Table) → IsFilled cs → IsFilled (put_context fd c cs)
unfolding put_context
put_context-IsFilled fd c [] f = tt
put_context-IsFilled zero c (x ∷ cs) f = ((λ e. cc), f.1)
put_context-IsFilled (suc fd) c (x ∷ cs) f = (f.0, put_context-IsFilled fd c cs f.1)
