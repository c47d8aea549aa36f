-- ===== src/Control/Tests.antt =====
-- A run of the settings.
use fiber_kcp.Prelude.{true, List, [], ◌∷◌, foldl, pos, negsuc, arith}
use fiber_kcp.Control.{fresh}
use fiber_kcp.Control.Settings.{
  IsConfigured, Setting, interval, nodelay_mode, window, mtu, configure, configure-IsConfigured,
}

-- Fast mode, an interval out of range, a small window and an MTU of 512.
abbrev settings : List Setting
settings =
    nodelay_mode (pos 1) (pos 2) (pos 2) (pos 1)
    ∷ interval (negsuc 4)
    ∷ window (pos 64) (pos 3)
    ∷ mtu true (pos 512)
    ∷ []

configure-IsConfigured_example : IsConfigured (foldl configure (fresh 7) settings)
unfolding fresh
configure-IsConfigured_example =
    configure-IsConfigured (fresh 7) settings
      (record {
        interval_low = omega arith;
        interval_high = omega arith;
        window = omega arith;
        window_word = omega arith;
        mss = omega arith;
        mtu_low = omega arith;
        mtu_high = omega arith;
        room = omega arith;
      })
      (tt, (tt, (omega arith, (omega arith, tt))))
