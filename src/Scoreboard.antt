-- ===== src/Scoreboard.antt =====
-- ns-2.35/tcp/scoreboard.cc and scoreboard-rq.cc: what a SACK sender knows of the receiver.
pub mod Ring
pub mod Shim
pub mod Halving
pub mod Resend
mod Tests
pub mod Choice
pub mod Retran
pub mod Once
pub mod Again
pub mod Received
