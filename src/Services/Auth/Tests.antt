-- ===== src/Services/Auth/Tests.antt =====
-- The account theorems at examples.
use live_polling.Prelude.{
  ◌≡◌, refl, ◌⊎◌, inl, true, false, [], ◌∷◌, Str, codes, str_eq, is_empty, arith,
}
use live_polling.Apperr.{Code, Error, ok, err}
use live_polling.Models.{User}
use live_polling.Validation.{name, email, normalise_email, password}
use live_polling.Validation.Text.{clean_text, trim_space, is_space}
use live_polling.Repositories.Users.{create, find_by_id}
use live_polling.Services.Auth.{
  RegisterInput, Session, LoginInput, incorrect, unauthorised, session_claims, new_session,
  register, login, resolved, user_from_token,
}
use live_polling.Services.Auth.Sample.{site, at, ann, form, sealed}
use live_polling.Services.Auth.Sessions.{Stands, user_from_token-new_session, user_from_token_safe}
use live_polling.Services.Auth.OneAccount.{OneAccount}
use live_polling.Services.Auth.Repeated.{IsTurnedAway, register-register}
use live_polling.Services.Auth.Logins.{Entitled, address, accepted, login_safe}
use live_polling.Services.Auth.Logins.AfterRegister.{login-register}

-- The session that Ann gets at 1.5 seconds: it ends at 11.5, and its token at 11.
abbrev session : Session
session = record {
  user = ann;
  token = sealed site.jwt_secret (session_claims site ann 1_500_000_000);
  expires_at = 11_500_000_000;
}

new_session-ann : (new_session site ann (at [] 1_500_000_000)).0 ≡ ok session
unfolding new_session
new_session-ann = refl

user_from_token-new_session_example :
    (user_from_token site session.token (at (ann ∷ []) 10_999_999_999)).0
    ≡ resolved site (site.users.find_by_id 7 (at (ann ∷ []) 0).users).0
user_from_token-new_session_example =
    user_from_token-new_session site ann (at [] 1_500_000_000) (at (ann ∷ []) 10_999_999_999)
      session new_session-ann (omega arith) (omega arith)

found_again : (user_from_token site session.token (at (ann ∷ []) 10_999_999_999)).0 ≡ ok ann
unfolding user_from_token str_eq find_by_id
found_again = refl

-- The token has ended while the session's own end is half a second away.
too_late : (user_from_token site session.token (at (ann ∷ []) 11_000_000_000)).0 ≡ err unauthorised
unfolding user_from_token str_eq
too_late = refl

user_from_token_safe_example :
    ((user : User)
      → (user_from_token site session.token (at (ann ∷ []) 2_000_000_000)).0 ≡ ok user
      → Stands site session.token (at (ann ∷ []) 2_000_000_000) user)
    × ((e : Error)
        → (user_from_token site session.token (at (ann ∷ []) 2_000_000_000)).0 ≡ err e
        → (e ≡ unauthorised) ⊎ (e.code ≡ Code.internal))
user_from_token_safe_example = user_from_token_safe site session.token (at (ann ∷ []) 2_000_000_000)

abbrev joined : Session
joined = record session {
  expires_at = 11_500_000_001;
  token = sealed site.jwt_secret (session_claims site ann 1_500_000_001);
}

register-form : (register site form (at [] 1_500_000_000)).0 ≡ ok joined
unfolding register password email normalise_email trim_space is_space str_eq name clean_text create
register-form = refl

-- A password of eight blanks is accepted.
abbrev blanks : RegisterInput
blanks = record form { password = codes "        " }

register-blanks :
    let r = register site blanks (at [] 1_500_000_000) in
    (is_empty (site.users.users r.1.users) ≡ false) × (is_empty (trim_space blanks.password) ≡ true)
unfolding register password email normalise_email trim_space is_space str_eq name clean_text create
register-blanks = (refl, refl)

ann-OneAccount : OneAccount (ann ∷ [])
ann-OneAccount = (refl, tt)

-- The same address, spelled with blanks around it.
abbrev respelled : RegisterInput
respelled = record form { email = codes " ann@example.org " }

register-register_example :
    IsTurnedAway site (at (ann ∷ []) 5) (register site respelled (at (ann ∷ []) 5))
unfolding normalise_email trim_space is_space
register-register_example =
    register-register site form respelled (at [] 1_500_000_000) (at (ann ∷ []) 5) joined
      register-form refl (inl refl)

login-register_example :
    let r =
      (login site
        (record { email = codes " ann@example.org "; password = codes "pass word" })
        (at (ann ∷ []) 5)).0 in
    (is_empty (trim_space (codes "pass word")) ≡ false
      → ((x : Session) × (r ≡ ok x) × (x.user ≡ ann))
        ⊎ ((e : Error) × (r ≡ err e) × (e.code ≡ Code.internal)))
    × (is_empty (trim_space (codes "pass word")) ≡ true → r ≡ err incorrect)
unfolding normalise_email trim_space is_space
login-register_example =
    login-register site form (at [] 1_500_000_000) joined (codes " ann@example.org ")
      (at (ann ∷ []) 5) register-form refl ann-OneAccount (inl refl)

abbrev mistaken : LoginInput
mistaken = record { email = codes "ann@example.org"; password = codes "password" }

login_safe_example :
    let r = login site mistaken (at (ann ∷ []) 5) in
    (site.users.users r.1.users ≡ ann ∷ [])
    × ((x : Session)
        → r.0 ≡ ok x
        → Entitled site (address site mistaken) mistaken.password (ann ∷ []) x)
    × ((e : Error)
        → r.0 ≡ err e
        → ((e ≡ incorrect) × (accepted site mistaken ≡ true → (h : Str) × (r.1.compared ≡ h ∷ [])))
          ⊎ (e.code ≡ Code.internal))
login_safe_example = login_safe site mistaken (at (ann ∷ []) 5)
