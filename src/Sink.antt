-- ===== src/Sink.antt =====
-- ns-2.35/tcp/tcp-sink.h and tcp-sink.cc: the receiver of one-way TCP.
pub mod Acker
pub mod Window
pub mod Widen
pub mod Delay
mod Tests
pub mod Stack
pub mod Sacker
pub mod Agent
