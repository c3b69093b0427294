-- ===== src/Redis/Limiter.antt =====
-- The fixed-window rate limiter: backend/internal/redis/rate_limit.go. The limit is not negative and
-- a window is a number of milliseconds.
pub mod Window
mod Tests
use live_polling.Prelude.{
  ℕ, zero, suc, ◌^◌, Bool, List, [], ◌∷◌, ◌++◌, Str, codes, Int64, leb, ◌==◌, if◌then◌else◌,
}
use live_polling.Apperr.{Attempt, done, failed}
use live_polling.Redis.Server.{Trip, delivered, unsent, unanswered}
use live_polling.Redis.Timed.{Timed}

abbrev pub limit_key : Str → Str
limit_key key = codes "ratelimit:" ++ key

abbrev pub is_negative : Int64 → Bool
is_negative x = leb (2 ^ 63) x

-- The answer of `Allow`: whether the caller is within the limit, and the milliseconds to wait.
pub record Answer : Type 0 where
  pub allowed : Bool
  pub retry_after : ℕ

module _ (s : Timed) where
  -- `rateLimitScript` once INCR has replied: the counter and the window's remaining life.
  unfoldable pub opened : Str → ℕ → Attempt ℕ → s.Db → Attempt (ℕ × Int64) × s.Db
  opened key window (failed c) d = (failed c, d)
  opened key window (done count) d =
      let d' = if count == 1 then s.pexpire key window d else d in (done (count, s.pttl key d'), d')

  -- `rateLimitScript`
  unfoldable pub hit : Str → ℕ → s.Db → Attempt (ℕ × Int64) × s.Db
  unfolding opened
  hit key window d = let (count, d') = s.incr key d in opened key window count d'

  -- What `Allow` makes of the script's reply.
  unfoldable pub judged : ℕ → ℕ → Attempt (ℕ × Int64) → Attempt Answer
  judged limit window (failed c) = failed c
  judged limit window (done (count, ttl)) =
      done (record {
        allowed = leb count limit;
        retry_after = if is_negative ttl then window else ttl;
      })

  -- One round trip with the script.
  unfoldable pub sent_hit : Trip → Str → ℕ → s.Db → Attempt (ℕ × Int64) × s.Db
  unfolding hit
  sent_hit delivered key window d = hit key window d
  sent_hit (unsent c) key window d = (failed c, d)
  sent_hit (unanswered c) key window d = (failed c, (hit key window d).1)

  -- `Client.Allow`
  unfoldable pub allow : Str → ℕ → ℕ → s.Db → Attempt Answer × s.Db
  unfolding judged sent_hit
  allow key limit window d =
      let (how, d₁) = s.trip d in
      let (reply, d₂) = sent_hit how (limit_key key) window d₁ in (judged limit window reply, d₂)

  -- A run of calls for one key.
  unfoldable pub allow_all : ℕ → Str → ℕ → ℕ → s.Db → List (Attempt Answer) × s.Db
  allow_all zero key limit window d = ([], d)
  allow_all (suc n) key limit window d =
      let (a, d₁) = allow key limit window d in
      let (rest, d₂) = allow_all n key limit window d₁ in (a ∷ rest, d₂)
