-- ===== src/Services/Auth.antt =====
-- AuthService: backend/internal/services/auth_service.go. The state also lists the hashes that a
-- password was compared with, since these comparisons are what takes time in a login.
pub mod Sessions
pub mod Logins
pub mod OneAccount
pub mod Repeated
pub mod Sample
mod Tests
use live_polling.Prelude.{
  ℕ, ◌+◌, ◌-◌, ◌%◌, ◌^◌, Bool, true, false, some, List, [], ◌∷◌, Str, codes, is_empty,
  if◌then◌else◌,
}
use live_polling.Apperr.{
  Code, Error, new, wrap, invalid, domain, is, Attempt, done, failed, Result, ok, err,
}
use live_polling.Models.{ObjectId, Time, User}
use live_polling.Validation.{Validator, valid, name, email, password, required}
use live_polling.Services.Stores.{ObjectIds, Clock}
use live_polling.Services.Accounts.{UserStore, Hasher, Claims, Tokens}

-- `AuthService` and what it calls; `jwt_expiry` is in nanoseconds.
pub record AuthService : Type 1 where
  pub users : UserStore
  pub jwt_secret : Str
  pub jwt_expiry : ℕ
  pub clock : Clock
  pub bcrypt_cost : ℕ
  pub dummy_hash : Str
  pub hasher : Hasher
  pub tokens : Tokens
  pub ids : ObjectIds
  pub lower : ℕ → ℕ
  pub parse_address : Str → Attempt Str

pub record World (s : AuthService) : Type 0 where
  pub users : s.users.Db
  pub random : s.hasher.Db
  pub clock : s.clock.Db
  pub compared : List Str

abbrev pub Action : AuthService → Type 0 → Type 0
Action s A = World s → Result A × World s

-- `RegisterInput`
pub record RegisterInput : Type 0 where
  pub name : Str
  pub email : Str
  pub password : Str

-- `LoginInput`
pub record LoginInput : Type 0 where
  pub email : Str
  pub password : Str

-- `Session`
pub record Session : Type 0 where
  pub user : User
  pub token : Str
  pub expires_at : Time

abbrev pub token_issuer : Str
token_issuer = codes "live-polling"

-- `jwt.NewNumericDate`, which drops the part of a second.
abbrev pub numeric_date : Time → Time
numeric_date t = t - t % 10 ^ 9

-- The message of every refused login.
abbrev pub incorrect : Error
incorrect = new Code.unauthorized "Incorrect e-mail address or password."

-- `unauthorised`
abbrev pub unauthorised : Error
unauthorised = new Code.unauthorized "Please sign in to continue."

module _ (s : AuthService) where
  abbrev pub session_claims : User → Time → Claims
  session_claims user now = record {
    subject = s.ids.hex user.id;
    issuer = token_issuer;
    issued_at = some (numeric_date now);
    not_before = some (numeric_date now);
    expires_at = some (numeric_date (now + s.jwt_expiry));
  }

  session_of : User → Time → Attempt Str → Result Session
  session_of user expires_at (failed c) = err (wrap Code.internal "Could not start your session." c)
  session_of user expires_at (done signed) =
      ok (record { user = user; token = signed; expires_at = expires_at })

  -- `AuthService.newSession`
  unfoldable pub new_session : User → Action s Session
  unfolding session_of
  new_session user w =
      let (now, clock) = s.clock.now w.clock in
      (
        session_of user (now + s.jwt_expiry)
            (s.tokens.signed s.jwt_secret (session_claims user now)),
        record w { clock = clock },
      )

  -- `Register` once `Create` has answered.
  created : Result User → Action s Session
  unfolding new_session
  created (err e) w = (err e, w)
  created (ok user) w = new_session user w

  -- `Register` once the password is hashed.
  hashed : Str → Str → Attempt Str → Action s Session
  unfolding created
  hashed name email (failed c) w = (err (wrap Code.internal "Could not create the account." c), w)
  hashed name email (done hash) w =
      let (now, clock) = s.clock.now w.clock in
      let (user, users) =
        s.users.create
          (record {
            id = 0;
            name = name;
            email = email;
            password_hash = hash;
            created_at = now;
            updated_at = now;
          })
          w.users in
      created user (record w { clock = clock; users = users })

  -- `Register` once the input is checked.
  register_checked : Bool → Str → Str → Str → Validator → Action s Session
  unfolding hashed
  register_checked false name email password v w =
      (err (invalid "Please correct the highlighted fields." v), w)
  register_checked true name email password v w =
      let (hash, random) = s.hasher.generate s.bcrypt_cost password w.random in
      hashed name email hash (record w { random = random })

  -- `AuthService.Register`
  unfoldable pub register : RegisterInput → Action s Session
  unfolding register_checked
  register input w =
      let (name, v₁) = name "name" input.name [] in
      let (email, v₂) = email s.lower s.parse_address "email" input.email v₁ in
      let v = password "password" input.password v₂ in
      register_checked (valid v) name email input.password v w

  -- `Login` once `CompareHashAndPassword` has answered.
  checked : User → Bool → Action s Session
  unfolding new_session
  checked user false w = (err incorrect, w)
  checked user true w = new_session user w

  -- `Login` once `FindByEmail` has answered.
  account_found : Result User → Str → Action s Session
  unfolding checked
  account_found (err e) password w =
      if is (domain e) Code.not_found
      then (err incorrect, record w { compared = s.dummy_hash ∷ w.compared })
      else (err e, w)
  account_found (ok user) password w =
      checked user (s.hasher.compare user.password_hash password)
        (record w { compared = user.password_hash ∷ w.compared })

  -- `Login` once the input is checked.
  login_checked : Bool → Str → Str → Action s Session
  unfolding account_found
  login_checked false email password w = (err incorrect, w)
  login_checked true email password w =
      let (found, users) = s.users.find_by_email email w.users in
      account_found found password (record w { users = users })

  -- `AuthService.Login`
  unfoldable pub login : LoginInput → Action s Session
  unfolding login_checked
  login input w =
      let (email, v₁) = email s.lower s.parse_address "email" input.email [] in
      let v = required "password" input.password v₁ in
      login_checked (valid v) email input.password w

  -- `UserFromToken` once `FindByID` has answered.
  unfoldable pub resolved : Result User → Result User
  resolved (err e) = if is (domain e) Code.not_found then err unauthorised else err e
  resolved (ok user) = ok user

  -- `UserFromToken` once the subject is parsed.
  subject_read : Attempt ObjectId → Action s User
  unfolding resolved
  subject_read (failed c) w = (err unauthorised, w)
  subject_read (done id) w =
      let (user, users) = s.users.find_by_id id w.users in
      (resolved user, record w { users = users })

  -- `UserFromToken` once the token is parsed.
  token_read : Attempt Claims → Action s User
  unfolding subject_read
  token_read (failed c) w = (err unauthorised, w)
  token_read (done claims) w = subject_read (s.ids.from_hex claims.subject) w

  -- `AuthService.UserFromToken`
  unfoldable pub user_from_token : Str → Action s User
  unfolding token_read
  user_from_token token w =
      let (now, clock) = s.clock.now w.clock in
      if is_empty token
      then (err unauthorised, w)
      else token_read (s.tokens.parse s.jwt_secret token_issuer now token)
          (record w { clock = clock })
