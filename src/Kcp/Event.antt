-- ===== src/Kcp/Event.antt =====
-- `inputRoutine`, what it hands to the receiver, kcp.cpp:109-152.
use fiber_kcp.Kcp.{Kcp}
