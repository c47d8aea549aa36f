-- ===== src/Control/Settings.antt =====
-- Sequences of calls of the settings, ikcp.c:1223-1283.
use fiber_kcp.Prelude.{
  ◌+◌, ◌-◌, ◌*◌, ◌^◌, ◌≤◌, ◌<◌, ◌≡◌, Bool, List, [], ◌∷◌, All, foldl, ℤ, pos, ◌≤ℤ◌, arith,
}
use fiber_kcp.Control.{Ikcpcb, set_interval, nodelay, wndsize, setmtu}

-- The settings that the other components rely on.
pub record IsConfigured (k : Ikcpcb) : Type 0 where
  pub interval_low : 10 ≤ k.interval
  pub interval_high : k.interval ≤ 5000
  pub window : 128 ≤ k.rcv_wnd
  pub window_word : k.rcv_wnd < 2 ^ 31
  pub mss : k.mss + 24 ≡ k.mtu
  pub mtu_low : 50 ≤ k.mtu
  pub mtu_high : k.mtu < 2 ^ 28
  pub room : k.room ≡ (k.mtu + 24) * 3

set_interval-IsConfigured :
    (k : Ikcpcb) (i : ℤ) → IsConfigured k → IsConfigured (set_interval k i).0
unfolding set_interval
set_interval-IsConfigured k i c = ground arith

pub nodelay-IsConfigured :
    (k : Ikcpcb) (n i r c : ℤ) → IsConfigured k → IsConfigured (nodelay k n i r c).0
unfolding nodelay
nodelay-IsConfigured k n i r c v = ground arith

pub wndsize-IsConfigured :
    (k : Ikcpcb) (s r : ℤ) → r ≤ℤ pos (2 ^ 31 - 1) → IsConfigured k → IsConfigured (wndsize k s r).0
unfolding wndsize
wndsize-IsConfigured k s r h c = ground arith

setmtu-IsConfigured :
    (b : Bool) (k : Ikcpcb) (m : ℤ)
    → m ≤ℤ pos (2 ^ 28 - 1)
    → IsConfigured k
    → IsConfigured (setmtu b k m).0
unfolding setmtu
setmtu-IsConfigured b k m h c = ground arith

-- A call that changes a setting.
pub data Setting : Type 0 where
  interval : ℤ → Setting
  nodelay_mode : ℤ → ℤ → ℤ → ℤ → Setting
  window : ℤ → ℤ → Setting
  mtu : Bool → ℤ → Setting

-- The arguments are `int`s, an MTU one whose buffer size does not wrap.
abbrev pub InRange : Setting → Type 0
InRange (interval i) = Unit {0}
InRange (nodelay_mode n i r c) = Unit {0}
InRange (window s r) = r ≤ℤ pos (2 ^ 31 - 1)
InRange (mtu b m) = m ≤ℤ pos (2 ^ 28 - 1)

unfoldable pub configure : Ikcpcb → Setting → Ikcpcb
configure k (interval i) = (set_interval k i).0
configure k (nodelay_mode n i r c) = (nodelay k n i r c).0
configure k (window s r) = (wndsize k s r).0
configure k (mtu b m) = (setmtu b k m).0

-- Whatever settings a caller asks for, one after the other, with a receive window that is an int
-- and an MTU below 2^28, and whether or not the buffer for it can be had: on a control block that
-- is configured like a new one, the interval stays between 10 and 5000 milliseconds, the receive
-- window takes the largest message, and the segment size and the output buffer fit the MTU.
pub configure-IsConfigured :
    (k : Ikcpcb) (l : List Setting)
    → IsConfigured k
    → All InRange l
    → IsConfigured (foldl configure k l)
unfolding configure
configure-IsConfigured k [] c a = c
configure-IsConfigured k (s ∷ l) c a = configure-IsConfigured (configure k s) l (one s a.0) a.1
  where
    one : (s : Setting) → InRange s → IsConfigured (configure k s)
    one (interval i) h = set_interval-IsConfigured k i c
    one (nodelay_mode n i r n') h = nodelay-IsConfigured k n i r n' c
    one (window s r) h = wndsize-IsConfigured k s r h c
    one (mtu b m) h = setmtu-IsConfigured b k m h c
