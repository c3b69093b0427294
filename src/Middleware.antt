-- ===== src/Middleware.antt =====
-- The middleware: backend/internal/middleware.
pub mod Voter
use live_polling.Prelude.{
  ℕ, ◌/◌, Bool, true, false, not, ◌&&◌, ◌||◌, Option, none, some, List, [], ◌∷◌, ◌++◌, map, any,
  Str, str_eq, codes, is_empty, ltb, ◌==◌, if◌then◌else◌,
}
use live_polling.Strconv.{format_int}
use live_polling.Apperr.{Code, Attempt, done, failed, Result, ok, err, domain}
use live_polling.Models.{User, ObjectId}
use live_polling.Validation.Text.{trim_space, byte_len}
use live_polling.Redis.Timed.{Timed}
use live_polling.Redis.Limiter.{Answer as Verdict, allow}
use live_polling.Services.Auth.{AuthService, World as Accounts, user_from_token}
use live_polling.Http.{
  Method, SameSite, Context, set_header, add_cookie, Envelope, Answer, fail, fail_with, Stage, next,
  halted, Middleware,
}

-- `CookieSettings`
pub record CookieSettings : Type 0 where
  pub secure : Bool
  pub domain : Str
  pub same_site : SameSite

-- `NewCookieSettings`, of `CookieSecure` and `CookieDomain`.
abbrev pub new_cookie_settings : Bool → Str → CookieSettings
new_cookie_settings cookie_secure cookie_domain = record {
  secure = cookie_secure;
  domain = cookie_domain;
  same_site = if cookie_secure then SameSite.none_mode else SameSite.lax_mode;
}

-- `CookieSettings.Set`
abbrev pub set_cookie : CookieSettings → Str → Str → Option ℕ → Context → Context
set_cookie s name value max_age = add_cookie (record {
  name = name;
  value = value;
  max_age = max_age;
  domain = s.domain;
  secure = s.secure;
  http_only = true;
  same_site = s.same_site;
})

abbrev pub session_cookie_name : Str
session_cookie_name = codes "lp_session"

-- `SetSession` and `ClearSession`
abbrev pub set_session : CookieSettings → Str → ℕ → Context → Context
set_session s token max_age = set_cookie s session_cookie_name token (some max_age)

abbrev pub clear_session : CookieSettings → Context → Context
clear_session s = set_cookie s session_cookie_name [] none

-- `strings.TrimRight(s, "/")`
unfoldable pub trim_slashes : Str → Str
trim_slashes [] = []
trim_slashes (c ∷ s) =
    let rest = trim_slashes s in if c == b'/' && is_empty rest then [] else c ∷ rest

-- The origins as `CORS` and `NewWebSocketHandler` keep them.
abbrev pub allow_list : List Str → List Str
allow_list origins = map (λ o. trim_slashes (trim_space o)) origins

-- The headers that `CORS` sets for the origin of a request.
unfoldable pub cors_headers : List Str → Str → Context → Context
cors_headers allowed origin c =
    if is_empty origin
    then c
    else set_header "Vary" (codes "Origin") (
        if any (str_eq origin) allowed
        then set_header "Access-Control-Max-Age" (codes "600") (
            set_header "Access-Control-Allow-Headers" (codes "Content-Type, X-Request-ID") (
              set_header "Access-Control-Allow-Methods" (codes "GET, POST, PATCH, DELETE, OPTIONS")
                (set_header "Access-Control-Allow-Credentials" (codes "true")
                  (set_header "Access-Control-Allow-Origin" origin c))))
        else c)

-- The end of `CORS`: a preflight is answered, and any other request goes on.
unfoldable pub preflight : {W A : Type 0} → Method → Context → W → Stage W (Answer A)
preflight Method.options c w = halted (record { status = 204; body = Envelope.no_body }) c w
preflight _ c w = next c w

-- The methods that `RequireJSON` looks at.
abbrev pub changes_state : Method → Bool
changes_state Method.post = true
changes_state Method.put = true
changes_state Method.patch = true
changes_state Method.delete = true
changes_state _ = false

-- A DELETE without a body.
abbrev pub bare_delete : Method → Option ℕ → Bool
bare_delete Method.delete (some n) = n == 0
bare_delete _ _ = false

-- `parse_media_type` is mime.ParseMediaType, as far as the media type goes, and `equal_fold` is
-- strings.EqualFold.
abbrev pub is_json : (Str → Str → Bool) → Attempt Str → Bool
is_json equal_fold (failed c) = false
is_json equal_fold (done media_type) = equal_fold media_type (codes "application/json")

module _ {W A : Type 0} where
  -- `CORS`
  unfoldable pub cors : List Str → Middleware W A
  unfolding cors_headers preflight
  cors allowed_origins r c w =
      preflight r.method (cors_headers (allow_list allowed_origins) (trim_slashes r.origin) c) w

  -- `RequestID`; `fresh` is what `newRequestID` gives.
  unfoldable pub request_id : Str → Middleware W A
  request_id fresh r c w =
      let id =
        if is_empty r.request_id || ltb 64 (byte_len r.request_id) then fresh else r.request_id in
      next (set_header "X-Request-ID" id (record c { request_id = id })) w

  -- `SecurityHeaders`
  unfoldable pub security_headers : Bool → Middleware W A
  security_headers is_production r c w =
      let c' = set_header "Referrer-Policy" (codes "strict-origin-when-cross-origin") (
        set_header "Content-Security-Policy"
          (codes "default-src 'none'; frame-ancestors 'none'; base-uri 'none'")
          (set_header "X-Frame-Options" (codes "DENY")
            (set_header "X-Content-Type-Options" (codes "nosniff") c))) in
      next
        (if is_production
          then set_header "Strict-Transport-Security" (codes "max-age=31536000; includeSubDomains")
              c'
          else c')
        w

  -- `RequireJSON`
  unfoldable pub require_json : (Str → Str → Bool) → (Str → Attempt Str) → Middleware W A
  require_json equal_fold parse_media_type r c w =
      if not (changes_state r.method) || bare_delete r.method r.content_length
      then next c w
      else if is_json equal_fold (parse_media_type r.content_type)
      then next c w
      else halted (fail Code.validation "This endpoint expects a JSON request body.") c w

module _ {A : Type 0} where
  -- `RateLimit` once the limiter has answered: it fails open.
  limited : {W : Type 0} → Attempt Verdict → Context → W → Stage W (Answer A)
  limited (failed e) c d = next c d
  limited (done v) c d =
      let seconds = v.retry_after / 1_000 in
      if v.allowed
      then next c d
      else halted (fail Code.rate_limited "Too many requests. Please wait a moment and try again.")
          (set_header "Retry-After" (format_int (if ltb seconds 1 then 1 else seconds)) c) d

  -- `RateLimit` with a limiter; the window is in milliseconds.
  unfoldable pub rate_limit : (s : Timed) → Str → ℕ → ℕ → Middleware s.Db A
  unfolding limited
  rate_limit s scope limit window r c d =
      let (verdict, d') = allow s (scope ++ codes ":" ++ r.client_ip) limit window d in
      limited verdict c d'

  -- `RequireAuth` once the token is resolved.
  unfoldable pub signed_in : {W : Type 0} → Result User → Context → W → Stage W (Answer A)
  signed_in (err e) c w = halted (fail_with (domain e)) c w
  signed_in (ok user) c w = next (record c { auth_user = some user }) w

  -- `RequireAuth` on the cookie, which may be missing.
  unfoldable pub with_session :
      (s : AuthService) → Option Str → Context → Accounts s → Stage (Accounts s) (Answer A)
  unfolding signed_in
  with_session s none c w = halted (fail Code.unauthorized "Please sign in to continue.") c w
  with_session s (some token) c w =
      let (user, w') = user_from_token s token w in
      if is_empty token
      then halted (fail Code.unauthorized "Please sign in to continue.") c w
      else signed_in user c w'

  -- `RequireAuth`
  unfoldable pub require_auth : (s : AuthService) → Middleware (Accounts s) A
  unfolding with_session
  require_auth s r c w = with_session s (r.cookie session_cookie_name) c w

-- `CurrentUserID`
abbrev pub current_user_id : Context → Option ObjectId
current_user_id c = elim c.auth_user [ none ↦ none | some u ↦ some u.id ]
