-- ===== src/Tcp.antt =====
-- ns-2.35/tcp/tcp.h and tcp.cc: the state that all senders share, its window and its timers.
pub mod Double
pub mod Agent
pub mod Timer
pub mod Timeout
pub mod Open
pub mod Reset
pub mod Slowdown
pub mod Cut
pub mod Tests
