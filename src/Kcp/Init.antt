-- ===== src/Kcp/Init.antt =====
-- `init`: the settings that a new control block starts with.
use fiber_kcp.Prelude.{
  ℕ, ◌^◌, ◌<◌, ◌≡◌, refl, Bool, true, false, ◌&&◌, none, some, arith, ltb, if◌then◌else◌, pos,
}
use fiber_kcp.Control.{Ikcpcb, create, fresh, wndsize, nodelay}
use fiber_kcp.Control.Safe.{wndsize-IsWell, nodelay-IsWell}
use fiber_kcp.Control.Settings.{IsConfigured, wndsize-IsConfigured, nodelay-IsConfigured}
use fiber_kcp.Ack.Safe.{IsWell}
use fiber_kcp.Session.Reachable.{fresh-IsWell}
use fiber_kcp.Kcp.{KcpAttr, Kcp, configure_block, with_block, init}

-- The block is well formed and configured, and has the conversation and the windows that the
-- attributes ask for; the receive window is at least 128. Fast retransmission is as asked, and the
-- congestion window is off.
abbrev pub Starts : KcpAttr → Ikcpcb → Type 0
Starts a k =
    IsWell k
    × IsConfigured k
    × (k.conv ≡ a.conv)
    × (0 < a.send_wnd_size → k.snd_wnd ≡ a.send_wnd_size)
    × (0 < a.recv_wnd_size → k.rcv_wnd ≡ (if ltb a.recv_wnd_size 128 then 128 else a.recv_wnd_size))
    × (k.fastresend ≡ pos a.fast_resend)
    × (k.nocwnd ≡ pos 1)

fresh-IsConfigured : (conv : ℕ) → IsConfigured (fresh conv)
unfolding fresh
fresh-IsConfigured conv = ground arith

configure_block-Starts :
    (a : KcpAttr)
    → a.send_wnd_size < 2 ^ 16
    → a.recv_wnd_size < 2 ^ 16
    → Starts a (configure_block a (fresh a.conv))
unfolding configure_block fresh wndsize nodelay
configure_block-Starts a s r =
    let k = fresh a.conv in
    let k1 = (wndsize k (pos a.send_wnd_size) (pos a.recv_wnd_size)).0 in
    (
      nodelay-IsWell k1 (pos a.nodelay_flag) a.interval (pos a.fast_resend) (pos 1) (
          wndsize-IsWell k (pos a.send_wnd_size) (pos a.recv_wnd_size) (omega arith) (omega arith)
            (fresh-IsWell a.conv)),
      nodelay-IsConfigured k1 (pos a.nodelay_flag) a.interval (pos a.fast_resend) (pos 1) (
          wndsize-IsConfigured k (pos a.send_wnd_size) (pos a.recv_wnd_size) (omega arith)
            (fresh-IsConfigured a.conv)),
      refl,
      (λ h. ground arith),
      (λ h. ground arith),
      refl,
      refl,
    )

-- What `init` comes to: without its allocations it reports failure and leaves no control block, and
-- with them one that starts as the attributes say; nothing else changes.
abbrev pub Inits : Bool → Kcp → Kcp × Bool → Type 0
Inits false c (c', ok) = (ok ≡ false) × (c' ≡ record c { handle = none })
Inits true c (c', ok) =
    (ok ≡ true) × ((k : Ikcpcb) × (c' ≡ record c { handle = some k }) × Starts c.attr k)

pub init-Inits :
    (allocated buffer : Bool) (c : Kcp)
    → c.attr.send_wnd_size < 2 ^ 16
    → c.attr.recv_wnd_size < 2 ^ 16
    → Inits (allocated && buffer) c (init allocated buffer c)
unfolding init with_block create
init-Inits false buffer c s r = (refl, refl)
init-Inits true false c s r = (refl, refl)
init-Inits true true c s r = (refl, (_, refl, configure_block-Starts c.attr s r))
