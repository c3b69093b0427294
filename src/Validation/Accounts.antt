-- ===== src/Validation/Accounts.antt =====
-- The input of the account forms (backend/internal/validation/validation.go).
use live_polling.Prelude.{ℕ, ◌≡◌, refl, subst, String, true, false, [], ◌∷◌, arith, Str, is_empty}
use live_polling.Apperr.{Attempt}
use live_polling.Validation.Text.{trim_space}
use live_polling.Validation.{Validator, valid, normalise_email, email, password, required}
use live_polling.Validation.Accepted.{add_invalid}

pub valid_empty : (v : Validator) → valid v ≡ true → v ≡ []
valid_empty [] h = refl
valid_empty (e ∷ v) h = cc

pub password_valid :
    (f : String) (value : Str) (v : Validator) → valid (password f value v) ≡ true → valid v ≡ true
unfolding password
password_valid f value v h = ground (
  arith,
  add_invalid f "Enter a password." v,
  add_invalid f "Your password must be at least 8 characters." v,
  add_invalid f "Your password must be 72 characters or fewer." v,
)

pub required_blank :
    (f : String) (value : Str) (v : Validator)
    → is_empty (trim_space value) ≡ true
    → valid (required f value v) ≡ false
unfolding required
required_blank f value v h = rw h (add_invalid f "This field is required." v)

pub required_filled :
    (f : String) (value : Str) (v : Validator)
    → is_empty (trim_space value) ≡ false
    → required f value v ≡ v
unfolding required
required_filled f value v h = rw h refl

module _ (lower : ℕ → ℕ) (parse_address : Str → Attempt Str) where
  pub email_valid :
      (f : String) (value : Str) (v : Validator)
      → valid (email lower parse_address f value v).1 ≡ true
      → (valid v ≡ true) × (valid (email lower parse_address f value []).1 ≡ true)
  unfolding email
  email_valid f value v h = (
    good,
    subst (λ v. valid (email lower parse_address f value v).1 ≡ true) (valid_empty v good) h,
  )
    where
      good : valid v ≡ true
      good = ground (
        arith,
        add_invalid f "Enter your e-mail address." v,
        add_invalid f "That e-mail address is too long." v,
        add_invalid f "Enter a valid e-mail address." v,
      )

  -- The rule for an address reads its normal form only.
  pub email_same :
      (f : String) (value value' : Str) (v : Validator)
      → normalise_email lower parse_address value ≡ normalise_email lower parse_address value'
      → email lower parse_address f value v ≡ email lower parse_address f value' v
  unfolding email
  email_same f value value' v h = rw h refl
