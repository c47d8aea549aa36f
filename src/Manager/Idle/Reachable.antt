-- ===== src/Manager/Idle/Reachable.antt =====
-- The managers that calls and turns lead to: no object that waits is ever to be removed.
use fiber_kcp.Prelude.{ℕ, ◌≡◌, Bool, Option, none, some, List, [], ◌∷◌}
use fiber_kcp.Manager.{Manager, Answer, Pass, add_kcp, del_kcp}
use fiber_kcp.Manager.Queue.{Entry}
use fiber_kcp.Manager.Idle.{EpollEvent, Idled, ends, yields, idle_turn}
use fiber_kcp.Manager.Idle.Removal.{AllWait}

-- Some of the entries, in their order.
data Some : List Entry → List Entry → Type 0 where
  end : Some [] []
  keeps : (e : Entry) {es es' : List Entry} → Some es es' → Some (e ∷ es) (e ∷ es')
  drops : (e : Entry) {es es' : List Entry} → Some es es' → Some (e ∷ es) es'

abbrev Leaves : List Entry → Option (List Entry × Pass) → Type 0
Leaves es none = Unit
Leaves es (some (es', p)) = Some es es'

abbrev PassWaits : Option Pass → Type 0
PassWaits none = Unit
PassWaits (some (m, local)) = AllWait m.waiting

abbrev TurnWaits : Option Idled → Type 0
TurnWaits none = Unit
TurnWaits (some (ends m)) = AllWait m.waiting
TurnWaits (some (yields m local)) = AllWait m.waiting

abbrev Serves : Option Manager → Type 0
Serves none = Unit
Serves (some m) = AllWait m.waiting

-- A call of `addKcp` or `delKcp`, or a turn of `idle` in some thread.
pub data ManagerStep : Manager → Manager → Type 0 where
  adds :
      (m : Manager) (o : Option Entry) (r : Manager × Bool)
      → add_kcp o m ≡ some r
      → ManagerStep m r.0
  deletes : (m : Manager) (fd : ℕ) (r : Manager × Bool) → del_kcp fd m ≡ some r → ManagerStep m r.0
  turns :
      (m m' : Manager) (me : ℕ) (answer : ℕ → Answer) (asked now : ℕ)
      (events : Option (List EpollEvent)) (local local' : ℕ)
      → idle_turn me answer asked now events (m, local) ≡ some (yields m' local')
      → ManagerStep m m'

pub data ManagerReach (m₀ : Manager) : Manager → Type 0 where
  begins : ManagerReach m₀ m₀
  continues : (m m' : Manager) → ManagerReach m₀ m → ManagerStep m m' → ManagerReach m₀ m'
