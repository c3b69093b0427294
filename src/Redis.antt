-- ===== src/Redis.antt =====
-- The Redis client of the program: backend/internal/redis. The server is a parameter: its commands,
-- with what they are documented to do to the hashes that the program reads.
pub mod Server
pub mod Memory
pub mod Channels
pub mod Timed
pub mod Limiter
mod Tests
pub mod Counters
