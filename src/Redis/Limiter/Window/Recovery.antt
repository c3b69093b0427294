-- ===== src/Redis/Limiter/Window/Recovery.antt =====
-- A refused caller is let in again (backend/internal/redis/rate_limit.go).
use live_polling.Redis.Timed.{Timed}
