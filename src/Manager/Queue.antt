-- ===== src/Manager/Queue.antt =====
-- kcp.h:64-78 and kcpmanager.cpp:66-88. The map of waiting objects, in the order of their sockets.
-- A search compares the key with the one it looks for, if it is there; the comparison asserts that
-- the two sockets differ.
pub mod Order
use fiber_kcp.Prelude.{
  ℕ, zero, suc, ◌<◌, ◌≢◌, ◌≡◌, refl, ap, ◌⊎◌, inl, inr, Bool, true, false, Option, none, some,
  ◌>>=◌, List, [], ◌∷◌, ◌++◌, All, arith, ltb, leb, ◌==◌, if◌then◌else◌, if_cases, ℤ, Bool-cases,
}

pub data KcpState : Type 0 where
  notinit : KcpState
  inited : KcpState
  remove : KcpState

-- A waiting object, with what the manager reads of it.
pub record Entry : Type 0 where
  pub kcp : ℕ
  pub fd : ℕ
  pub interval : ℤ
  pub bind_tid : ℕ
  pub state : KcpState

-- kcp.h:75-76: `none` is the failure of the assertion.
unfoldable pub compare_fd : ℕ → ℕ → Option Bool
compare_fd a b = if a == b then none else some (ltb a b)

-- kcp.h:64-78, on pointers.
pub compare_kcp : Option Entry → Option Entry → Option Bool
compare_kcp none v2 = some true
compare_kcp (some v1) none = some false
compare_kcp (some v1) (some v2) = compare_fd v1.fd v2.fd

-- What a search for the place of a socket finds.
pub data Place : Type 0 where
  taken : (before behind : List Entry) (e : Entry) → Place
  vacant : (before behind : List Entry) → Place

pub place_behind : Entry → Place → Place
place_behind e (taken before behind x) = taken (e ∷ before) behind x
place_behind e (vacant before behind) = vacant (e ∷ before) behind

-- The end of the search at `e`, which is not before the socket.
pub stop_at : ℕ → Entry → List Entry → Option Bool → Option Place
stop_at fd e es none = none
stop_at fd e es (some true) = some (vacant [] (e ∷ es))
stop_at fd e es (some false) = some (taken [] es e)

unfoldable pub pass_entry : ℕ → Entry → List Entry → Option Place → Option Bool → Option Place
pass_entry fd e es later none = none
pass_entry fd e es later (some true) = do p ← later; some (place_behind e p)
pass_entry fd e es later (some false) = stop_at fd e es (compare_fd fd e.fd)

-- `lower_bound`, and the comparison that follows it.
unfoldable pub find_place : ℕ → List Entry → Option Place
find_place fd [] = some (vacant [] [])
find_place fd (e ∷ es) = pass_entry fd e es (find_place fd es) (compare_fd e.fd fd)

-- `std::map::insert`.
unfoldable pub insert_entry : Entry → Place → List Entry × Bool
insert_entry e (vacant before behind) = (before ++ (e ∷ behind), true)
insert_entry e (taken before behind x) = (before ++ (x ∷ behind), false)

-- kcpmanager.cpp:84-86.
unfoldable pub mark_removed : Place → List Entry
mark_removed (vacant before behind) = before ++ behind
mark_removed (taken before behind x) = before ++ (record x { state = remove } ∷ behind)
