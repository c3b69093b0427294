-- ===== src/Services.antt =====
-- The business rules: backend/internal/services.
pub mod Stores
pub mod World
pub mod Sample
mod Tests
pub mod Results
pub mod Realtime
pub mod Votes
pub mod Polls
pub mod Accounts
pub mod Auth
