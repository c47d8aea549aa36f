-- ===== src/Manager/Idle/Removal.antt =====
-- Objects that wait, through any number of calls and passes: none is ever removed.
use fiber_kcp.Prelude.{
  ℕ, ◌<◌, ◌≡◌, refl, sym, ◌∙◌, ap, subst, inl, inr, Bool, true, false, Option, none, some,
  some-injective, List, [], ◌∷◌, ◌++◌, All, All-append, All-left, All-right, arith, Bool-cases, leb,
  if◌then◌else◌,
}
use fiber_kcp.Manager.{Manager, epoll_event_size, add_kcp, put_entry, del_kcp, mark_entry}
use fiber_kcp.Manager.Queue.{
  Entry, notinit, Place, taken, vacant, find_place, insert_entry, mark_removed,
}
use fiber_kcp.Manager.Queue.Order.{IsMap, HasFd, Searched, find_place-Searched}

-- The queue is in the order of its sockets, and all its objects wait to be registered.
abbrev pub AllWait : List Entry → Type 0
AllWait es = IsMap es × All (λ e. e.state ≡ notinit) es

inserted-IsMap :
    (e : Entry) (before behind : List Entry)
    → IsMap (before ++ behind)
    → All (λ x. x.fd < e.fd) before
    → All (λ x. e.fd < x.fd) behind
    → IsMap (before ++ (e ∷ behind))
inserted-IsMap e [] behind m b a = (a, m)
inserted-IsMap e (x ∷ before) behind m b a = (
  All-append (λ y. x.fd < y.fd) before (e ∷ behind) (All-left (λ y. x.fd < y.fd) before behind m.0)
      (b.0, All-right (λ y. x.fd < y.fd) before behind m.0),
  inserted-IsMap e before behind m.1 b.1 a,
)

put_entry-AllWait :
    (e : Entry) (m : Manager) (r : Manager × Bool) (o : Option Place)
    → e.state ≡ notinit
    → AllWait m.waiting
    → Searched e.fd m.waiting o
    → put_entry e m o ≡ some r
    → AllWait r.0.waiting
unfolding put_entry insert_entry
put_entry-AllWait e m r none s w f q = absurd (ground (arith, q))
put_entry-AllWait e m r (some (taken before behind x)) s w f q = absurd f
put_entry-AllWait e m r (some (vacant before behind)) s w (p, n, b, a) q =
    subst (λ (r : Manager × Bool). AllWait r.0.waiting) (some-injective _ r q)
      (
        inserted-IsMap e before behind (subst IsMap p w.0) b a,
        All-append (λ x. x.state ≡ notinit) before (e ∷ behind)
            (All-left (λ x. x.state ≡ notinit) before behind
              (subst (All (λ (x : Entry). x.state ≡ notinit)) p w.1))
            (
              s,
              All-right (λ x. x.state ≡ notinit) before behind
                  (subst (All (λ (x : Entry). x.state ≡ notinit)) p w.1),
            ),
      )

pub add_kcp-AllWait :
    (o : Option Entry) (m : Manager) (r : Manager × Bool)
    → AllWait m.waiting
    → add_kcp o m ≡ some r
    → AllWait r.0.waiting
unfolding add_kcp
add_kcp-AllWait none m r w q =
    subst (λ (r : Manager × Bool). AllWait r.0.waiting) (some-injective _ r q) w
add_kcp-AllWait (some e) m r w q = elim (Bool-cases (leb epoll_event_size m.event_count)) [
  | inl c ↦
      subst (λ (r : Manager × Bool). AllWait r.0.waiting)
        (some-injective (m, false) r
          (sym (
              ap
                (λ (b : Bool).
                  if b
                  then some (m, false)
                  else put_entry (record e { state = notinit }) m (find_place e.fd m.waiting))
                c)
            ∙ q))
        w
  | inr c ↦
      put_entry-AllWait (record e { state = notinit }) m r (find_place e.fd m.waiting) refl w
        (find_place-Searched e.fd m.waiting w.0)
        (sym (
            ap
              (λ (b : Bool).
                if b
                then some (m, false)
                else put_entry (record e { state = notinit }) m (find_place e.fd m.waiting))
              c)
          ∙ q)
]

-- A removal fails an assertion if the object waits, and changes nothing if it does not.
abbrev pub Deletes : ℕ → Manager → Option (Manager × Bool) → Type 0
Deletes fd m none = HasFd fd m.waiting
Deletes fd m (some (m', ok)) = (¬ HasFd fd m.waiting) × (m' ≡ m) × (ok ≡ true)

mark_entry-Deletes :
    (fd : ℕ) (m : Manager) (o : Option Place)
    → Searched fd m.waiting o
    → Deletes fd m (mark_entry m o)
unfolding mark_entry mark_removed
mark_entry-Deletes fd m none s = s
mark_entry-Deletes fd m (some (taken before behind x)) s = absurd s
mark_entry-Deletes fd m (some (vacant before behind)) (p, n, b, a) =
    (n, ap (λ es. record m { waiting = es }) (sym p), refl)

pub del_kcp-Deletes : (fd : ℕ) (m : Manager) → IsMap m.waiting → Deletes fd m (del_kcp fd m)
unfolding del_kcp
del_kcp-Deletes fd m w =
    mark_entry-Deletes fd m (find_place fd m.waiting) (find_place-Searched fd m.waiting w)
