-- ===== src/Rq.antt =====
-- ns-2.35/tcp/rq.h and rq.cc: the queue that reassembles received segments, and that a SACK sender
-- uses to remember what the receiver holds.
pub mod Defs
pub mod Coalesce
pub mod Sides
pub mod Add
pub mod Ranges
pub mod Zip
pub mod Place
pub mod Leftover
pub mod OneBetween
pub mod Merge
pub mod Sweep
pub mod Search
pub mod Rejoin
pub mod Insert
pub mod Round
pub mod Cover
pub mod Trim
pub mod Gap
pub mod Flags
pub mod Canon
pub mod Tests
unfoldable pub use Defs.*
unfoldable pub use Coalesce.*
unfoldable pub use Sides.*
unfoldable pub use Add.*
