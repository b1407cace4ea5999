-- ===== src/Full.antt =====
-- tcp/tcp-full.h and tcp-full.cc: FullTcpAgent, the sender and receiver with a connection state.
pub mod Data
pub mod Packet
pub mod Plan
pub mod Depart
pub mod Output
pub mod Send
pub mod Ack
pub mod Timers
pub mod Reset
pub mod Reass
pub mod Arrive
pub mod Process
pub mod Slow
pub mod Handshake
pub mod Recv
pub mod Asked
pub mod Expected
pub mod Predict
pub mod Farewell
pub mod Teardown
pub mod Sack
pub mod Holes
pub mod Heard
pub mod Forgets
pub mod Variants
pub mod Burst
pub mod Present
pub mod Front
pub mod Fixed
pub mod Held
pub mod Holding
pub mod Pass
pub mod Loop
pub mod Newack
pub mod Closing
pub mod Tests
mod Runs
mod Trials
