-- ===== src/Repositories.antt =====
-- The repositories: backend/internal/repositories. The errors of the driver become domain errors.
pub mod Votes
pub mod Polls
pub mod Users
pub mod PollRepository
