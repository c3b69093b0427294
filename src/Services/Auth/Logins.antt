-- ===== src/Services/Auth/Logins.antt =====
-- Who gets in and what a refusal shows (backend/internal/services/auth_service.go).
pub mod AfterRegister
use live_polling.Prelude.{
  ◌≡◌, ◌≢◌, refl, sym, ap, ◌∙◌, ◌⊎◌, inl, inr, Bool, true, false, List, [], ◌∷◌, Str, str_eq,
  Member, Bool-cases,
}
use live_polling.Apperr.{Code, Error, Attempt, done, failed, Result, ok, err, err-injective, is}
use live_polling.Apperr.Laws.{is_same, is_other}
use live_polling.Models.{Time, User}
use live_polling.Validation.{valid, normalise_email, email, required}
use live_polling.Services.Auth.{
  AuthService, World, Session, LoginInput, incorrect, session_of, new_session, checked,
  account_found, login_checked, login,
}
use live_polling.Services.Auth.Sessions.{new_session_ok}

pub internal_found : {c : Code} → c ≡ Code.internal → c ≢ Code.not_found
internal_found h k = cc

module _ (s : AuthService) where
  session_of_err :
      (user : User) (t : Time) (a : Attempt Str) (e : Error)
      → session_of s user t a ≡ err e
      → e.code ≡ Code.internal
  unfolding session_of
  session_of_err user t (failed c) e h = ap (λ (x : Error). x.code) (sym (err-injective h))
  session_of_err user t (done signed) e h = cc

  -- A session cannot be started only where signing fails.
  pub new_session_err :
      (user : User) (w : World s) (e : Error)
      → (new_session s user w).0 ≡ err e
      → e.code ≡ Code.internal
  unfolding new_session
  new_session_err user w e h = session_of_err user _ _ e h

  -- The address as it is looked up, and whether the input rules let a login through.
  abbrev pub address : LoginInput → Str
  address input = normalise_email s.lower s.parse_address input.email

  abbrev pub accepted : LoginInput → Bool
  accepted input =
      valid (
        required "password" input.password (email s.lower s.parse_address "email" input.email []).1)

  -- A session is for a stored account with the address, whose hash the password fits.
  abbrev pub Entitled : Str → Str → List User → Session → Type 0
  Entitled email password us x =
      Member x.user us
      × (str_eq x.user.email email ≡ true)
      × (s.hasher.compare x.user.password_hash password ≡ true)

  abbrev Outcome : Str → Str → World s → Result Session × World s → Type 0
  Outcome email password w r =
      (s.users.users r.1.users ≡ s.users.users w.users)
      × ((x : Session) → r.0 ≡ ok x → Entitled email password (s.users.users w.users) x)
      × ((e : Error)
          → r.0 ≡ err e
          → ((e ≡ incorrect) × ((h : Str) × (r.1.compared ≡ h ∷ w.compared)))
            ⊎ (e.code ≡ Code.internal))

  checked-Outcome :
      (user : User) (b : Bool) (email password : Str) (w w' : World s)
      → Member user (s.users.users w.users)
      → str_eq user.email email ≡ true
      → s.hasher.compare user.password_hash password ≡ b
      → s.users.users w'.users ≡ s.users.users w.users
      → w'.compared ≡ user.password_hash ∷ w.compared
      → Outcome email password w (checked s user b w')
  unfolding checked
  checked-Outcome user false email password w w' there is fits same one =
      (same, (λ x h. cc), (λ e h. inl (sym (err-injective h), (user.password_hash, one))))
  checked-Outcome user true email password w w' there is fits same one = (
    same,
    (λ x h. let (_, who, _) = new_session_ok s user w' x h in rw who (there, is, fits)),
    (λ e h. inr (new_session_err user w' e h)),
  )

  account_found-Outcome :
      (r : Result User) (email password : Str) (w w' : World s)
      → (s.users.find_by_email email w.users).0 ≡ r
      → s.users.users w'.users ≡ s.users.users w.users
      → w'.compared ≡ w.compared
      → Outcome email password w (account_found s r password w')
  unfolding account_found
  account_found-Outcome (ok user) email password w w' found same none_yet =
      let (is, there) = s.users.find_by_email_ok email w.users user found in
      checked-Outcome user _ email password w _ there is refl same
        (ap (λ hs. user.password_hash ∷ hs) none_yet)
  account_found-Outcome (err x) email password w w' found same none_yet =
      elim (s.users.find_by_email_err email w.users x found) [
        | inl (code, _) ↦ rw (is_same x Code.not_found code) (
          same,
          (λ y h. cc),
          (λ e h.
              inl (sym (err-injective h), (s.dummy_hash, ap (λ hs. s.dummy_hash ∷ hs) none_yet))),
        )
        | inr code ↦ rw (is_other x Code.not_found (internal_found code)) (
          same,
          (λ y h. cc),
          (λ e h. inr (ap (λ (y : Error). y.code) (sym (err-injective h)) ∙ code)),
        )
      ]

  login_checked-Outcome :
      (b : Bool) (email password : Str) (w : World s)
      → b ≡ true
      → Outcome email password w (login_checked s b email password w)
  unfolding login_checked
  login_checked-Outcome false email password w h = cc
  login_checked-Outcome true email password w h =
      account_found-Outcome _ email password w _ refl (s.users.find_by_email_reads email w.users)
        refl

  login_checked-refused :
      (b : Bool) (email password : Str) (w : World s)
      → b ≡ false
      → login_checked s b email password w ≡ (err incorrect, w)
  unfolding login_checked
  login_checked-refused false email password w h = refl
  login_checked-refused true email password w h = cc

  login-Outcome :
      (input : LoginInput) (w : World s)
      → accepted input ≡ true
      → Outcome (address input) input.password w (login s input w)
  unfolding login email
  login-Outcome input w h = login_checked-Outcome _ _ input.password w h

  -- Input that breaks the rules is refused before anything is looked up.
  pub login-refused :
      (input : LoginInput) (w : World s)
      → accepted input ≡ false
      → login s input w ≡ (err incorrect, w)
  unfolding login email
  login-refused input w h = login_checked-refused _ _ input.password w h

  -- A login changes no account. The session that it starts is for the stored account with the address
  -- and with a hash that the password fits. Every refusal is the one with the same message, for an
  -- unknown address as for a wrong password, unless the store or the signing fails; and where the
  -- input is well formed a refusal has compared the password with just one hash in either case.
  pub login_safe :
      (input : LoginInput) (w : World s)
      → let r = login s input w in
        (s.users.users r.1.users ≡ s.users.users w.users)
        × ((x : Session)
            → r.0 ≡ ok x
            → Entitled (address input) input.password (s.users.users w.users) x)
        × ((e : Error)
            → r.0 ≡ err e
            → ((e ≡ incorrect)
                × (accepted input ≡ true → (h : Str) × (r.1.compared ≡ h ∷ w.compared)))
              ⊎ (e.code ≡ Code.internal))
  login_safe input w = elim (Bool-cases (accepted input)) [
    | inl good ↦
        let (same, granted, refused) = login-Outcome input w good in
        (
          same,
          granted,
          (λ e h. elim (refused e h) [
            | inl (is, one) ↦ inl (is, λ _. one)
            | inr internal ↦ inr internal
          ]),
        )
    | inr bad ↦
        rw (login-refused input w bad)
          (refl, (λ x h. cc), (λ e h. inl (sym (err-injective h), λ good. absurd (apart bad good))))
  ]
    where
      apart : {b : Bool} → b ≡ false → b ≡ true → ⊥
      apart h k = cc
