-- ===== src/Lib.antt =====
-- fiber_kcp: the protocol engine, ikcp.c and ikcp.h, a reliable, ordered transport of messages over
-- datagrams, and the C++ around it, which runs many conversations on a few threads.
--
-- An application puts messages into `snd_queue` with `ikcp_send`. `ikcp_update` drives the clock and
-- calls `ikcp_flush`, which moves segments into the window `snd_buf`, numbers them and packs them,
-- with acknowledgements and window probes, into datagrams for the output callback. The other side
-- gives each datagram to `ikcp_input`, which takes acknowledged segments out of `snd_buf`, notes
-- what to acknowledge, and sorts arriving segments into `rcv_buf`, from where they pass in order to
-- `rcv_queue`; `ikcp_recv` takes whole messages off it. `ikcp_check` tells when to call
-- `ikcp_update` again.
--
-- A `Kcp` wraps a control block with a socket and a list of buffers to send. `KcpManager` takes such
-- objects, registers their sockets with epoll and adds a recurring timer for each. It is a
-- `KTimerManager`, whose expired timers queue the output routines, and a `KScheduler`, whose threads
-- take tasks off a queue and run each in a `KFiber`; its idle fiber waits for events, which queue the
-- input routines.
--
-- Each operation is a function from the control block to the control block and its result; an
-- operation that can fail an assertion or read past the end of its input returns an option.
-- - Prelude: numbers, lists, Boolean tests and signed integers that the other files share.
-- - Word (ikcp.c:123-139): `uint32_t` and `int32_t` arithmetic and `_itimediff`.
-- - Wire (ikcp.c:49-121, 906-917, 1292-1297; ikcp.h:267-283): segments and the 24-byte header.
-- - Control (ikcp.c:25-46, 234-295, 1223-1288; ikcp.h:289-317): `struct IKCPCB`, `ikcp_create` and
--   the settings.
-- - Recv (ikcp.c:358-463, 683-743): `ikcp_parse_data`, `ikcp_peeksize`, `ikcp_recv`.
-- - Send (ikcp.c:469-537): `ikcp_send`.
-- - Ack (ikcp.c:543-677): `ikcp_update_ack`, `ikcp_shrink_buf`, `ikcp_parse_ack`, `ikcp_parse_una`,
--   `ikcp_parse_fastack`, `ikcp_ack_push`, `ikcp_ack_get`.
-- - Input (ikcp.c:749-900): `ikcp_input`.
-- - Flush (ikcp.c:204-213, 919-1138): `ikcp_wnd_unused`, `ikcp_output`, `ikcp_flush`; Flush.Out is
--   what is held for a datagram, Flush.Data the loop over the segments of the window.
-- - Clock (ikcp.c:1146-1219): `ikcp_update`, `ikcp_check`.
-- - Session: the engine on both ends of a line.
-- - Timer (ktimer.h, ktimer.cpp): `KTimer` and `KTimerManager`.
-- - Fiber (kfiber.h, kfiber.cpp): `KFiber`, the fibers of one thread.
-- - Scheduler (kschedule.h, kschedule.cpp): `KScheduler`; Scheduler.Loop is `threadloop`.
-- - Kcp (kcp.h, kcp.cpp): `Kcp` and its routines, over the engine.
-- - Manager (kcpmanager.h, kcpmanager.cpp): `KcpManager`; Manager.Contexts is the table of contexts,
--   Manager.Queue the map of waiting objects, Manager.Idle a turn of `idle`.
-- The files below a component's folder hold what is proved of it, and in Tests its runs.
--
-- A `uint32_t` is a natural number below 2^32 with the wrap-around written out, and so is the bit
-- pattern of an `int32_t`; an `int` argument is an integer. A queue of segments is a list from its
-- head to its tail. The loop of `ikcp_input` runs on fuel, one more than the size: each turn takes
-- a header of 24 bytes. The doubling of the acknowledgement block runs on fuel 30: from 8, 29
-- doublings wrap a 32-bit number to zero. All other loops are recursive on a list.
--
-- Allocation outcomes are arguments of `create`, `setmtu` and `add_timer`, and elsewhere taken to
-- succeed, as the assertions behind them demand. `std::set` and `std::map` are lists in order, by
-- the contract of those containers. A call that holds a lock is one step. The clock, sockets and epoll
-- are arguments: times, datagrams that arrive, answers and events. A fiber that runs is what it leaves
-- behind when it gives way.
--
-- Not modelled: the log calls, the allocator hooks, the release of memory and descriptors, the links
-- of the intrusive queues, the wrapper of pthreads (kthread.h, kthread.cpp), the programs under test,
-- the yields of an `epoll_wait` that signals interrupt, and the interleaving of the threads of one
-- scheduler inside a turn. Who owns a fiber is not tracked: of the destructors that run when a last
-- pointer goes, only that of the fiber for callbacks that is kept when the loop is left is modelled.
pub mod Prelude
pub mod Word
pub mod Wire
pub mod Control
pub mod Recv
pub mod Ack
pub mod Send
pub mod Input
pub mod Flush
pub mod Clock
pub mod Session
pub mod Timer
pub mod Fiber
pub mod Scheduler
pub mod Kcp
pub mod Manager
