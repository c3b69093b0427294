-- ===== src/Config/Tests.antt =====
-- The settings at an example: a deployment with two origins.
use live_polling.Prelude.{◌≡◌, refl, true, [], ◌∷◌, Str, str_eq, codes, if◌then◌else◌}
use live_polling.Apperr.{done}
use live_polling.Middleware.{trim_slashes}
use live_polling.Validation.Text.{trim_space, is_space}
use live_polling.Config.{Environment, Config, split_from, trimmed_origins, load}
use live_polling.Config.Loaded.{IsSafe, load-IsSafe}

abbrev env : Str → Str
env key =
    if str_eq key (codes "APP_ENV")
    then codes "production"
    else if str_eq key (codes "JWT_SECRET")
    then codes "0123456789abcdef0123456789abcdef"
    else if str_eq key (codes "FRONTEND_URL")
    then codes "https://a.org/, https://b.org"
    else []

abbrev deployed : Config
deployed = record {
  app_env = Environment.production;
  port = codes "8080";
  mongo_uri = codes "mongodb://localhost:27017";
  mongo_database = codes "livepolling";
  redis_url = codes "redis://localhost:6379/0";
  jwt_secret = codes "0123456789abcdef0123456789abcdef";
  jwt_expires_in = 5;
  allowed_origins = codes "https://a.org" ∷ codes "https://b.org" ∷ [];
  cookie_secure = true;
  cookie_domain = [];
  trusted_proxies = [];
  max_request_body_bytes = 65_536;
  shutdown_timeout = 15_000_000_000;
}

load-env : load env (λ s. done 5) ≡ done deployed
unfolding load str_eq trim_space is_space trimmed_origins split_from trim_slashes
load-env = refl

load-IsSafe_example : IsSafe deployed
load-IsSafe_example = load-IsSafe env (λ s. done 5) deployed load-env
