-- ===== src/Clock/Tests.antt =====
-- Runs of `ikcp_update` and `ikcp_check`.
use fiber_kcp.Prelude.{arith}
use fiber_kcp.Control.{Ikcpcb, fresh}
use fiber_kcp.Clock.{update}
use fiber_kcp.Clock.Schedule.{IsClocked, IsAhead, update_schedules}

update_schedules_example :
    IsClocked (update (fresh 7) 4294967290).0 4294967290
    × IsAhead 4294967290 (update (fresh 7) 4294967290).0.ts_flush
unfolding fresh
update_schedules_example =
    update_schedules (fresh 7) 4294967290 (omega arith) (omega arith) (omega arith) (omega arith)

-- The next flush is due 60 milliseconds after the clock wraps.
abbrev running : Ikcpcb
running = record (fresh 7) { updated = 1; ts_flush = 60 }
