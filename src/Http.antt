-- ===== src/Http.antt =====
-- A request, what has been set for its answer, and a chain of middleware with a handler at its end, as
-- gin runs them: what `Next` hands on, and what `Abort` ends. backend/internal/response/response.go
-- has the envelope of an answer.
use live_polling.Prelude.{ℕ, String, Bool, not, Option, none, List, [], ◌∷◌, Str, keep}
use text.Mathlib.Text.{◌==◌ as string_eq}
use live_polling.Apperr.{Code, ApiError, Failure, status_for, error_response}
use live_polling.Models.{User}

pub data Method : Type 0 where
  get post put patch delete options : Method
  other : Str → Method

-- A header that is not there is the empty text, as `GetHeader` gives it; a content length that is not
-- known is `none`. A cookie that is not there is `none`.
pub record Request : Type 0 where
  pub method : Method
  pub origin : Str
  pub content_type : Str
  pub request_id : Str
  pub content_length : Option ℕ
  pub cookie : Str → Option Str
  pub client_ip : Str

pub data SameSite : Type 0 where
  lax_mode none_mode : SameSite

-- A cookie of the answer; `max_age` is `none` where the cookie is deleted.
pub record SetCookie : Type 0 where
  pub name : Str
  pub value : Str
  pub max_age : Option ℕ
  pub domain : Str
  pub secure : Bool
  pub http_only : Bool
  pub same_site : SameSite

-- What gin's context keeps for a request: `auth_user`, `voter_id`, `request_id`, and the headers and
-- cookies of the answer.
pub record Context : Type 0 where
  pub auth_user : Option User
  pub voter_id : Option Str
  pub request_id : Str
  pub headers : List (String × Str)
  pub set_cookies : List SetCookie

abbrev pub blank : Context
blank = record {
  auth_user = none;
  voter_id = none;
  request_id = [];
  headers = [];
  set_cookies = [];
}

-- `c.Header` and `c.SetCookie`
abbrev pub set_header : String → Str → Context → Context
set_header k v c = record c { headers = (k, v) ∷ keep (λ h. not (string_eq h.0 k)) c.headers }

abbrev pub add_cookie : SetCookie → Context → Context
add_cookie k c = record c { set_cookies = k ∷ c.set_cookies }

-- `Envelope`: the data of a success or the public part of an error, or no body at all.
pub data Envelope {ℓ} (A : Type ℓ) : Type ℓ where
  success : A → Envelope A
  failure : ApiError → Envelope A
  no_body : Envelope A

pub record Answer (A : Type 0) : Type 0 where
  pub status : ℕ
  pub body : Envelope A

-- `response.Fail`
abbrev pub fail : {A : Type 0} → Code → String → Answer A
fail code message = record {
  status = status_for code;
  body = Envelope.failure (record { code = code; message = message; fields = [] });
}

-- `response.Error`
abbrev pub fail_with : {A : Type 0} → Failure → Answer A
fail_with e =
    let r = error_response e in record { status = r.status; body = Envelope.failure r.body }

-- `response.OK` and `response.Created`
abbrev pub ok_with : {A : Type 0} → A → Answer A
ok_with x = record { status = 200; body = Envelope.success x }

abbrev pub created_with : {A : Type 0} → A → Answer A
created_with x = record { status = 201; body = Envelope.success x }

-- What a middleware comes to: the rest of the chain runs, or an answer ends it.
pub data Stage {ℓ} (W A : Type ℓ) : Type ℓ where
  next : Context → W → Stage W A
  halted : A → Context → W → Stage W A

abbrev pub Middleware : Type 0 → Type 0 → Type 0
Middleware W A = Request → Context → W → Stage W (Answer A)

abbrev pub Handler : Type 0 → Type 0 → Type 0
Handler W A = Request → Context → W → Answer A × Context × W

-- The chain goes on where a middleware lets it.
unfoldable pub proceed :
    {W A : Type 0}
    → Stage W (Answer A)
    → (Context → W → Answer A × Context × W)
    → Answer A × Context × W
proceed (Stage.next c w) rest = rest c w
proceed (Stage.halted a c w) rest = (a, c, w)

unfoldable pub chain : {W A : Type 0} → List (Middleware W A) → Handler W A → Handler W A
unfolding proceed
chain [] handler r c w = handler r c w
chain (m ∷ ms) handler r c w = proceed (m r c w) (λ c w. chain ms handler r c w)

-- A middleware on a part of the state.
unfoldable pub lifted : {W V A : Type 0} → (V → W → W) → W → Stage V (Answer A) → Stage W (Answer A)
lifted put_part w (Stage.next c v) = Stage.next c (put_part v w)
lifted put_part w (Stage.halted a c v) = Stage.halted a c (put_part v w)

unfoldable pub on_part : {W V A : Type 0} → (W → V) → (V → W → W) → Middleware V A → Middleware W A
unfolding lifted
on_part part put_part m r c w = lifted put_part w (m r c (part w))
