-- ===== src/Services/Auth/Repeated.antt =====
-- An address is registered once, in whatever spelling (backend/internal/services/auth_service.go).
use live_polling.Prelude.{
  ◌≡◌, refl, subst, sym, inl, inr, Bool, true, false, Str, str_eq, Member, any-Member,
}
use live_polling.Apperr.{Error, Attempt, done, failed, Result, ok, err, Result-cases}
use live_polling.Models.{User}
use live_polling.Validation.{Validator, email, normalise_email}
use live_polling.Services.Accounts.{registered}
use live_polling.Services.Auth.{
  AuthService, World, Session, RegisterInput, created, hashed, register_checked, register,
}
use live_polling.Services.Auth.OneAccount.{taken}
use live_polling.Services.Auth.Logins.AfterRegister.{register_ok}

module _ (s : AuthService) where
  -- The call is refused and leaves the accounts alone.
  abbrev pub IsTurnedAway : World s → Result Session × World s → Type 0
  IsTurnedAway w q =
      (s.users.users q.1.users ≡ s.users.users w.users) × ((e : Error) × (q.0 ≡ err e))

  hashed-taken :
      (name email : Str) (hash : Attempt Str) (w : World s)
      → registered email (s.users.users w.users) ≡ true
      → IsTurnedAway w (hashed s name email hash w)
  unfolding hashed created
  hashed-taken name email (failed c) w known = (refl, (_, refl))
  hashed-taken name email (done hash) w known = elim (Result-cases (s.users.create u w.users).0) [
    | inl (u', stored) ↦ absurd (taken known (s.users.create_ok u u' w.users stored).0)
    | inr (e, refused) ↦ elim (s.users.create_err u w.users e refused) [
      | inl (_, _, same) ↦ rw refused (same, (e, refl))
      | inr (_, inl same) ↦ rw refused (same, (e, refl))
      | inr (_, inr (i, fresh, _)) ↦ absurd (taken known fresh)
    ]
  ]
    where
      u : User
      u = record {
        id = 0;
        name = name;
        email = email;
        password_hash = hash;
        created_at = (s.clock.now w.clock).0;
        updated_at = (s.clock.now w.clock).0;
      }

  register_checked-taken :
      (b : Bool) (name email password : Str) (v : Validator) (w : World s)
      → registered email (s.users.users w.users) ≡ true
      → IsTurnedAway w (register_checked s b name email password v w)
  unfolding register_checked
  register_checked-taken false name email password v w known = (refl, (_, refl))
  register_checked-taken true name email password v w known = hashed-taken name email _ _ known

  -- Once a registration has succeeded, every later one for an address with the same normal form is
  -- refused and adds no account, however the address is spelled, as long as the account is stored.
  pub register-register :
      (input input' : RegisterInput) (w w' : World s) (x : Session)
      → (register s input w).0 ≡ ok x
      → normalise_email s.lower s.parse_address input'.email
        ≡ normalise_email s.lower s.parse_address input.email
      → Member x.user (s.users.users w'.users)
      → IsTurnedAway w' (register s input' w')
  unfolding register email
  register-register input input' w w' x first same there =
      let (_, (_, is, _)) = register_ok s input w x first in
      register_checked-taken _ _ _ input'.password _ w' (
        any-Member (λ u. str_eq u.email (normalise_email s.lower s.parse_address input'.email))
          x.user _ there (subst (λ a. str_eq x.user.email a ≡ true) (sym same) is))
