-- ===== src/Apperr.antt =====
-- The error vocabulary of the services: backend/internal/apperr/apperr.go, with the HTTP status
-- that backend/internal/response/response.go gives each code.
pub mod Laws
mod Tests
use live_polling.Prelude.{
  ◌≡◌, ◌⊎◌, inl, inr, refl, ℕ, String, List, [], Option, none, some, Bool, true, false,
}

pub data Code : Type 0 where
  validation unauthorized forbidden not_found conflict already_voted poll_closed : Code
  rate_limited too_large internal unavailable : Code

-- An error of a driver or of the standard library, which only the log ever sees.
pub data Cause : Type 0 where
  duplicate_key no_documents : Cause
  other : ℕ → Cause

-- `apperr.Error`
pub record Error : Type 0 where
  pub code : Code
  pub message : String
  pub fields : List (String × String)
  pub cause : Option Cause

-- `apperr.New`
abbrev pub new : Code → String → Error
new c m = record { code = c; message = m; fields = []; cause = none }

-- `apperr.Wrap`
abbrev pub wrap : Code → String → Cause → Error
wrap c m e = record { code = c; message = m; fields = []; cause = some e }

-- `apperr.Validation`
abbrev pub invalid : String → List (String × String) → Error
invalid m fs = record { code = Code.validation; message = m; fields = fs; cause = none }

-- A Go `error`: a domain error, or any other one.
pub data Failure : Type 0 where
  domain : Error → Failure
  plain : Cause → Failure

-- A call of a driver or of the standard library: its value, or its error.
pub data Attempt {ℓ} (A : Type ℓ) : Type ℓ where
  done : A → Attempt A
  failed : Cause → Attempt A

-- What a service method returns: a value or a domain error.
pub data Result {ℓ} (A : Type ℓ) : Type ℓ where
  ok : A → Result A
  err : Error → Result A

pub ok-injective {ℓ} : {A : Type ℓ} {a b : A} → ok a ≡ ok b → a ≡ b
ok-injective h = cc

pub err-injective {ℓ} : {A : Type ℓ} {a b : Error} → ◌≡◌ {A = Result A} (err a) (err b) → a ≡ b
err-injective h = cc

pub done-injective {ℓ} : {A : Type ℓ} {a b : A} → done a ≡ done b → a ≡ b
done-injective h = cc

pub Result-cases {ℓ} :
    {A : Type ℓ} (r : Result A) → ((a : A) × (r ≡ ok a)) ⊎ ((e : Error) × (r ≡ err e))
Result-cases (ok a) = inl (a, refl)
Result-cases (err e) = inr (e, refl)

pub Code-discrete : Discrete Code
Code-discrete = hlevel

-- `apperr.Is`
pub is : Failure → Code → Bool
unfolding Code-discrete
is (domain e) c = elim (Code-discrete e.code c) [ yes _ ↦ true | no _ ↦ false ]
is (plain _) c = false

-- `response.statusFor`
pub status_for : Code → ℕ
status_for Code.validation = 422
status_for Code.unauthorized = 401
status_for Code.forbidden = 403
status_for Code.not_found = 404
status_for Code.conflict = 409
status_for Code.already_voted = 409
status_for Code.poll_closed = 409
status_for Code.too_large = 413
status_for Code.rate_limited = 429
status_for Code.unavailable = 503
status_for Code.internal = 500

-- `response.APIError`, the part of an error that a client sees.
pub record ApiError : Type 0 where
  pub code : Code
  pub message : String
  pub fields : List (String × String)

-- The codes that `response.Error` logs.
logs : Code → Bool
logs Code.internal = true
logs Code.unavailable = true
logs _ = false

-- What `response.Error` does with a failure.
pub record Reply : Type 0 where
  pub status : ℕ
  pub body : ApiError
  pub logged : Bool

-- `response.Error`
pub error_response : Failure → Reply
unfolding status_for logs
error_response (domain e) = record {
  status = status_for e.code;
  body = record { code = e.code; message = e.message; fields = e.fields };
  logged = logs e.code;
}
error_response (plain e) = record {
  status = 500;
  body = record {
    code = Code.internal;
    message = "Something went wrong. Please try again.";
    fields = [];
  };
  logged = true;
}
