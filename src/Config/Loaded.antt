-- ===== src/Config/Loaded.antt =====
-- What is known of a configuration that the process starts with (backend/internal/config/config.go).
use live_polling.Prelude.{ℕ, ◌≤◌, ◌≡◌, subst, true, false, arith, any, Str, str_eq, codes, is_empty}
use live_polling.Apperr.{Attempt, done, failed, done-injective}
use live_polling.Validation.Text.{byte_len}
use live_polling.Config.{
  Config, is_production, development_secret, harden, validate, get_env, resolved, load, known,
}

-- What the rest of the program relies on.
abbrev pub IsSafe : Config → Type 0
IsSafe c =
    (is_empty c.jwt_secret ≡ false)
    × (is_empty c.allowed_origins ≡ false)
    × (any (λ o. str_eq o (codes "*")) c.allowed_origins ≡ false)
    × (known c.app_env ≡ true)
    × (is_production c ≡ true → (32 ≤ byte_len c.jwt_secret) × (c.cookie_secure ≡ true))

harden_done :
    (c c' : Config)
    → harden c ≡ done c'
    → (c ≡ c') × (is_production c ≡ true → (32 ≤ byte_len c.jwt_secret) × (c.cookie_secure ≡ true))
unfolding harden
harden_done c c' h = ground (arith, done-injective {a = c} {b = c'})

harden-IsSafe :
    (c c' : Config)
    → is_empty c.jwt_secret ≡ false
    → is_empty c.allowed_origins ≡ false
    → any (λ o. str_eq o (codes "*")) c.allowed_origins ≡ false
    → known c.app_env ≡ true
    → harden c ≡ done c'
    → IsSafe c'
harden-IsSafe c c' secret some_origin exact env h =
    let (same, hard) = harden_done c c' h in
    subst IsSafe same (secret, some_origin, exact, env, hard)

validate-IsSafe : (c c' : Config) → validate c ≡ done c' → IsSafe c'
unfolding validate
validate-IsSafe c c' h =
    ground
      (arith, harden-IsSafe c c', harden-IsSafe (record c { jwt_secret = development_secret }) c')

module _ (env : Str → Str) (parse_duration : Str → Attempt ℕ) where
  -- The process starts only with a configuration that is safe, whatever the environment holds: its
  -- secret is not empty, it allows some origin and never every one, its environment is a known one,
  -- and in production the secret has at least 32 bytes and the cookies are sent over HTTPS only.
  pub load-IsSafe : (c : Config) → load env parse_duration ≡ done c → IsSafe c
  unfolding load
  load-IsSafe c h =
      given (parse_duration (get_env env parse_duration (codes "JWT_EXPIRES_IN") (codes "24h"))) h
    where
      given :
          (a : Attempt ℕ)
          → (elim a [
            | failed x ↦ failed x
            | done expiry ↦ validate (resolved env parse_duration expiry)
          ])
            ≡ done c
          → IsSafe c
      given (failed x) h = cc
      given (done expiry) h = validate-IsSafe (resolved env parse_duration expiry) c h
