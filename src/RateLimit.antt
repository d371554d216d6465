-- ===== src/RateLimit.antt =====
-- The rate limiter of sensitive endpoints: app/api/ratelimit.py. Different keys have different
-- counters, so one key is modelled. A Redis command is atomic; INCR and EXPIRE are two of them, between
-- which others come, and the EXPIRE of a request may be late or lost.
mod Defs
pub mod Steps
pub mod Bounds
pub mod Windows
mod Tests
unfoldable pub use Defs.*
