-- ===== src/Config.antt =====
-- The settings: backend/internal/config/config.go. The environment is a function from names to texts,
-- empty where a variable is not set; the parser of durations (package time) is a parameter, for
-- durations that are not negative.
pub mod Loaded
mod Tests
use live_polling.Prelude.{
  ℕ, ◌*◌, Bool, true, false, not, ◌&&◌, Option, none, some, List, [], ◌∷◌, ◌++◌, any, Str, str_eq,
  codes, is_empty, ltb, ◌==◌, if◌then◌else◌,
}
use live_polling.Apperr.{Cause, Attempt, done, failed}
use live_polling.Validation.Text.{trim_space, byte_len}
use live_polling.Middleware.{trim_slashes}

-- `Environment`: the three constants, or any other text.
pub data Environment : Type 0 where
  development test production : Environment
  unknown : Str → Environment

-- `Environment(text)`
abbrev pub environment : Str → Environment
environment s =
    if str_eq s (codes "development")
    then Environment.development
    else if str_eq s (codes "test")
    then Environment.test
    else if str_eq s (codes "production")
    then Environment.production
    else Environment.unknown s

abbrev pub known : Environment → Bool
known (Environment.unknown s) = false
known _ = true

abbrev pub min_jwt_secret_length : ℕ
min_jwt_secret_length = 32

-- `Config`; durations are in nanoseconds.
pub record Config : Type 0 where
  pub app_env : Environment
  pub port : Str
  pub mongo_uri : Str
  pub mongo_database : Str
  pub redis_url : Str
  pub jwt_secret : Str
  pub jwt_expires_in : ℕ
  pub allowed_origins : List Str
  pub cookie_secure : Bool
  pub cookie_domain : Str
  pub trusted_proxies : List Str
  pub max_request_body_bytes : ℕ
  pub shutdown_timeout : ℕ

-- `Config.IsProduction`
abbrev pub production_env : Environment → Bool
production_env Environment.production = true
production_env _ = false

abbrev pub is_production : Config → Bool
is_production c = production_env c.app_env

-- `strings.Split(s, ",")`, from the part that has been read so far.
unfoldable pub split_from : Str → Str → List Str
split_from part [] = part ∷ []
split_from part (c ∷ s) = elim (c == b',') [
  | true ↦ part ∷ split_from [] s
  | false ↦ split_from (part ++ c ∷ []) s
]

-- `splitList` and `splitOrigins`
unfoldable pub trimmed : List Str → List Str
trimmed [] = []
trimmed (p ∷ parts) =
    let values = trimmed parts in
    let value = trim_space p in if is_empty value then values else value ∷ values

abbrev pub split_list : Str → List Str
split_list raw = if is_empty (trim_space raw) then [] else trimmed (split_from [] raw)

unfoldable pub trimmed_origins : List Str → List Str
trimmed_origins [] = []
trimmed_origins (p ∷ parts) =
    let origins = trimmed_origins parts in
    let origin = trim_slashes (trim_space p) in
    if is_empty origin then origins else origin ∷ origins

abbrev pub split_origins : Str → List Str
split_origins raw = trimmed_origins (split_from [] raw)

-- `strconv.ParseBool`
abbrev pub parse_bool : Str → Option Bool
parse_bool s =
    if any (str_eq s)
      (codes "1" ∷ codes "t" ∷ codes "T" ∷ codes "TRUE" ∷ codes "true" ∷ codes "True" ∷ [])
    then some true
    else if any (str_eq s)
        (codes "0" ∷ codes "f" ∷ codes "F" ∷ codes "FALSE" ∷ codes "false" ∷ codes "False" ∷ [])
    then some false
    else none

-- `validate`, with its errors as numbers, in the order of the code.
abbrev pub fails : ℕ → Attempt Config
fails n = failed (Cause.other n)

abbrev pub development_secret : Str
development_secret = codes "development-only-insecure-jwt-secret-change-me"

-- The end of `validate`, where the secret has been settled.
unfoldable pub harden : Config → Attempt Config
harden c =
    if is_production c && ltb (byte_len c.jwt_secret) min_jwt_secret_length
    then fails 8
    else if is_production c && not c.cookie_secure
    then fails 9
    else done c

-- `Config.validate`
unfoldable pub validate : Config → Attempt Config
unfolding harden
validate c =
    if not (known c.app_env)
    then fails 1
    else if is_empty c.mongo_uri
    then fails 2
    else if is_empty c.mongo_database
    then fails 3
    else if is_empty c.redis_url
    then fails 4
    else if is_empty c.allowed_origins
    then fails 5
    else if any (λ o. str_eq o (codes "*")) c.allowed_origins
    then fails 6
    else if not (is_empty c.jwt_secret)
    then harden c
    else if is_production c
    then fails 7
    else harden (record c { jwt_secret = development_secret })

module _ (env : Str → Str) (parse_duration : Str → Attempt ℕ) where
  -- `getEnv`
  abbrev pub get_env : Str → Str → Str
  get_env key fallback = let v = trim_space (env key) in if is_empty v then fallback else v

  -- `getEnvBool`
  abbrev pub get_env_bool : Str → Bool → Bool
  get_env_bool key fallback =
      let raw = trim_space (env key) in
      if is_empty raw then fallback else elim (parse_bool raw) [ none ↦ fallback | some v ↦ v ]

  -- The configuration that `Load` validates.
  unfoldable pub resolved : ℕ → Config
  resolved expiry =
      let app_env = environment (get_env (codes "APP_ENV") (codes "development")) in
      record {
        app_env = app_env;
        port = get_env (codes "PORT") (codes "8080");
        mongo_uri = get_env (codes "MONGODB_URI") (codes "mongodb://localhost:27017");
        mongo_database = get_env (codes "MONGODB_DATABASE") (codes "livepolling");
        redis_url = get_env (codes "REDIS_URL") (codes "redis://localhost:6379/0");
        jwt_secret = env (codes "JWT_SECRET");
        jwt_expires_in = expiry;
        allowed_origins =
            split_origins (get_env (codes "FRONTEND_URL") (codes "http://localhost:5173"));
        cookie_secure = get_env_bool (codes "COOKIE_SECURE") (production_env app_env);
        cookie_domain = get_env (codes "COOKIE_DOMAIN") [];
        trusted_proxies = split_list (env (codes "TRUSTED_PROXIES"));
        max_request_body_bytes = 64 * 1_024;
        shutdown_timeout = 15_000_000_000;
      }

  -- `Load`
  unfoldable pub load : Attempt Config
  unfolding validate resolved
  load = elim (parse_duration (get_env (codes "JWT_EXPIRES_IN") (codes "24h"))) [
    | failed c ↦ failed c
    | done expiry ↦ validate (resolved expiry)
  ]
