-- ===== src/Services/Auth/Logins/AfterRegister.antt =====
-- The way from a registration to a login (backend/internal/services/auth_service.go).
use live_polling.Prelude.{
  ◌≡◌, refl, sym, ap, subst, ◌∙◌, ◌⊎◌, inl, inr, Bool, true, false, List, [], ◌∷◌, ◌++◌, Str,
  str_eq, str_eq_iff, is_empty, Member, any-Member,
}
use live_polling.Apperr.{Code, Error, Attempt, done, failed, Result, ok, err, Result-cases}
use live_polling.Apperr.Laws.{is_other}
use live_polling.Models.{User}
use live_polling.Validation.{Validator, valid, normalise_email, name, email}
use live_polling.Validation.Text.{trim_space}
use live_polling.Validation.Accounts.{
  email_valid, email_same, password_valid, required_blank, required_filled,
}
use live_polling.Services.Auth.{
  AuthService, World, Session, RegisterInput, LoginInput, incorrect, new_session, created, hashed,
  register_checked, register, checked, account_found, login_checked, login,
}
use live_polling.Services.Auth.Sessions.{new_session_ok}
use live_polling.Services.Auth.OneAccount.{OneAccount, account_unique, taken}
use live_polling.Services.Auth.Logins.{
  accepted, address, Entitled, new_session_err, internal_found, login-refused,
}

module _ (s : AuthService) where
  created_ok :
      (r : Result User) (w : World s) (x : Session)
      → (created s r w).0 ≡ ok x
      → (r ≡ ok x.user) × (s.users.users (created s r w).1.users ≡ s.users.users w.users)
  unfolding created
  created_ok (err e) w x h = cc
  created_ok (ok u) w x h = (ap ok (sym (new_session_ok s u w x h).1), refl)

  last-Member : {A : Type 0} (a : A) (xs : List A) → Member a (xs ++ a ∷ [])
  last-Member a [] = inl refl
  last-Member a (x ∷ xs) = inr (last-Member a xs)

  hashed_ok :
      (name email pw : Str) (w : World s) (x : Session) (a : Attempt Str)
      → ((hash : Str) → a ≡ done hash → s.hasher.compare hash pw ≡ true)
      → (hashed s name email a w).0 ≡ ok x
      → Entitled s email pw (s.users.users (hashed s name email a w).1.users) x
  unfolding hashed
  hashed_ok name email pw w x (failed c) made h = cc
  hashed_ok name email pw w x (done hash) made h =
      let (stored, same) = created_ok _ _ x h in
      let (_, (i, is), grown) = s.users.create_ok _ x.user w.users stored in
      (
        subst (Member x.user) (sym (same ∙ grown)) (last-Member x.user _),
        (str_eq_iff _ _).1 (ap (λ (u : User). u.email) is),
        ap (λ (u : User). s.hasher.compare u.password_hash pw) is ∙ made hash refl,
      )

  register_checked_ok :
      (b : Bool) (name email pw : Str) (v : Validator) (w : World s) (x : Session)
      → (register_checked s b name email pw v w).0 ≡ ok x
      → (b ≡ true)
        × Entitled s email pw (s.users.users (register_checked s b name email pw v w).1.users) x
  unfolding register_checked
  register_checked_ok false name email pw v w x h = cc
  register_checked_ok true name email pw v w x h = (
    refl,
    hashed_ok name email pw _ x _
        (λ hash made. s.hasher.compare-generate s.bcrypt_cost pw hash w.random made) h,
  )

  -- A registration that succeeds leaves the account that it returns in the store, at the normal form
  -- of the address, with a hash that the password fits; and the address passes the rules.
  pub register_ok :
      (input : RegisterInput) (w : World s) (x : Session)
      → (register s input w).0 ≡ ok x
      → (valid (email s.lower s.parse_address "email" input.email []).1 ≡ true)
        × Entitled s
            (normalise_email s.lower s.parse_address input.email)
            input.password
            (s.users.users (register s input w).1.users)
            x
  unfolding register email
  register_ok input w x h =
      let (good, entitled) = register_checked_ok _ _ _ input.password _ w x h in
      (
        (email_valid s.lower s.parse_address "email" input.email _
            (password_valid "password" input.password _ good)).1,
        entitled,
      )

  -- The account is let in, unless the store or the signing fails.
  abbrev Welcome : User → Result Session → Type 0
  Welcome u r =
      ((x : Session) × (r ≡ ok x) × (x.user ≡ u))
      ⊎ ((e : Error) × (r ≡ err e) × (e.code ≡ Code.internal))

  new_session-Welcome : (u : User) (w : World s) → Welcome u (new_session s u w).0
  new_session-Welcome u w = elim (Result-cases (new_session s u w).0) [
    | inl (x, h) ↦ inl (x, h, (new_session_ok s u w x h).1)
    | inr (e, h) ↦ inr (e, h, new_session_err s u w e h)
  ]

  checked-Welcome : (u : User) (b : Bool) (w : World s) → b ≡ true → Welcome u (checked s u b w).0
  unfolding checked
  checked-Welcome u false w h = cc
  checked-Welcome u true w h = new_session-Welcome u w

  account_found-Welcome :
      (r : Result User) (email pw : Str) (w w' : World s) (u : User)
      → (s.users.find_by_email email w.users).0 ≡ r
      → OneAccount (s.users.users w.users)
      → Member u (s.users.users w.users)
      → str_eq u.email email ≡ true
      → s.hasher.compare u.password_hash pw ≡ true
      → Welcome u (account_found s r pw w').0
  unfolding account_found
  account_found-Welcome (ok v) address pw w w' u found one there is fits =
      let (is', there') = s.users.find_by_email_ok address w.users v found in
      let same : v ≡ u =
        account_unique v u _ one there' there
          ((str_eq_iff _ _).0 is' ∙ sym ((str_eq_iff _ _).0 is)) in
      subst
        (λ y.
          Welcome y
            (checked s v (s.hasher.compare v.password_hash pw)
              (record w' { compared = v.password_hash ∷ w'.compared })).0)
        same
        (checked-Welcome v _ _ (ap (λ (y : User). s.hasher.compare y.password_hash pw) same ∙ fits))
  account_found-Welcome (err e) address pw w w' u found one there is fits =
      elim (s.users.find_by_email_err address w.users e found) [
        | inl (_, gone) ↦
            absurd (taken (any-Member (λ (y : User). str_eq y.email address) u _ there is) gone)
        | inr code ↦ inr (e, rw (is_other e Code.not_found (internal_found code)) refl, code)
      ]

  login_checked-Welcome :
      (b : Bool) (email pw : Str) (w : World s) (u : User)
      → b ≡ true
      → OneAccount (s.users.users w.users)
      → Member u (s.users.users w.users)
      → str_eq u.email email ≡ true
      → s.hasher.compare u.password_hash pw ≡ true
      → Welcome u (login_checked s b email pw w).0
  unfolding login_checked
  login_checked-Welcome false email pw w u good one there is fits = cc
  login_checked-Welcome true email pw w u good one there is fits =
      account_found-Welcome _ email pw w _ u refl one there is fits

  login-Welcome :
      (input : LoginInput) (w : World s) (u : User)
      → accepted s input ≡ true
      → OneAccount (s.users.users w.users)
      → Member u (s.users.users w.users)
      → str_eq u.email (address s input) ≡ true
      → s.hasher.compare u.password_hash input.password ≡ true
      → Welcome u (login s input w).0
  unfolding login email
  login-Welcome input w u good one there is fits =
      login_checked-Welcome _ _ input.password w u good one there is fits

  -- Who has registered can log in, in any later state that still has the account and no two accounts
  -- with one address, with the password and with any spelling of the address that has the same normal
  -- form: the session is for the same account, unless the store or the signing fails. That needs a
  -- password that is more than white space: with one that is not, which registration accepts, every
  -- login is refused.
  pub login-register :
      (input : RegisterInput) (w : World s) (x : Session) (email : Str) (w' : World s)
      → (register s input w).0 ≡ ok x
      → normalise_email s.lower s.parse_address email
        ≡ normalise_email s.lower s.parse_address input.email
      → OneAccount (s.users.users w'.users)
      → Member x.user (s.users.users w'.users)
      → let r = (login s (record { email = email; password = input.password }) w').0 in
        (is_empty (trim_space input.password) ≡ false → Welcome x.user r)
        × (is_empty (trim_space input.password) ≡ true → r ≡ err incorrect)
  login-register input w x email' w' h same one there =
      let (good, (_, is, fits)) = register_ok input w x h in
      (
        (λ filled.
            login-Welcome _ w' x.user
              (ap valid (required_filled "password" input.password _ filled)
                ∙ ap (λ r. valid r.1)
                    (email_same s.lower s.parse_address "email" email' input.email [] same)
                ∙ good)
              one there (subst (λ a. str_eq x.user.email a ≡ true) (sym same) is) fits),
        (λ blank.
            ap (λ r. r.0)
              (login-refused s _ w' (required_blank "password" input.password _ blank))),
      )
