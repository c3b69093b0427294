-- ===== src/Validation.antt =====
-- The input rules: backend/internal/validation/validation.go. A text is its runes. Unicode's lower
-- case and the parser of addresses (net/mail) are parameters.
pub mod Text
pub mod Clean
pub mod Accepted
pub mod Accounts
mod Tests
use text.Mathlib.Text.{◌==◌ as string_eq}
use live_polling.Prelude.{
  ℕ, ◌+◌, String, Bool, false, ◌&&◌, List, [], ◌∷◌, ◌++◌, map, any, Str, str_eq, is_empty, length,
  ltb, ◌==◌, if◌then◌else◌,
}
use live_polling.Apperr.{Attempt, done, failed}
use Text.{clean_text, trim_space, byte_len}

-- `Validator`: the first message of each field.
abbrev pub Validator : Type 0
Validator = List (String × String)

-- `Validator.Add`
unfoldable pub add : String → String → Validator → Validator
add field message v = if any (λ e. string_eq e.0 field) v then v else v ++ (field, message) ∷ []

-- `Validator.Valid`
abbrev pub valid : Validator → Bool
valid v = is_empty v

-- `QuestionMinLength` and the other limits.
abbrev pub name_min_length : ℕ
name_min_length = 2

abbrev pub name_max_length : ℕ
name_max_length = 64

abbrev pub email_max_length : ℕ
email_max_length = 254

abbrev pub password_min_length : ℕ
password_min_length = 8

abbrev pub password_max_length : ℕ
password_max_length = 72

abbrev pub question_min_length : ℕ
question_min_length = 3

abbrev pub question_max_length : ℕ
question_max_length = 300

abbrev pub option_text_max_length : ℕ
option_text_max_length = 120

abbrev pub min_options : ℕ
min_options = 2

abbrev pub max_options : ℕ
max_options = 10

-- `Validator.Name`, on the cleaned text.
unfoldable pub name : String → Str → Validator → Str × Validator
name field value v =
    let clean = clean_text value in
    (
      clean,
      if is_empty clean
          then add field "Enter your name." v
          else if ltb (length clean) name_min_length
          then add field "Your name must be at least 2 characters." v
          else if ltb name_max_length (length clean)
          then add field "Your name must be 64 characters or fewer." v
          else v,
    )

-- `Validator.Question`
unfoldable pub question : String → Str → Validator → Str × Validator
question field value v =
    let clean = clean_text value in
    (
      clean,
      if is_empty clean
          then add field "Enter a question." v
          else if ltb (length clean) question_min_length
          then add field "The question must be at least 3 characters." v
          else if ltb question_max_length (length clean)
          then add field "The question must be 300 characters or fewer." v
          else v,
    )

-- `Validator.Password`
unfoldable pub password : String → Str → Validator → Validator
password field value v =
    if is_empty value
    then add field "Enter a password." v
    else if ltb (byte_len value) password_min_length
    then add field "Your password must be at least 8 characters." v
    else if ltb password_max_length (byte_len value)
    then add field "Your password must be 72 characters or fewer." v
    else v

-- `Validator.Required`
unfoldable pub required : String → Str → Validator → Validator
required field value v =
    if is_empty (trim_space value) then add field "This field is required." v else v

-- The first loop of `Options`: the cleaned labels that are not empty.
unfoldable pub clean_options : List Str → List Str
clean_options [] = []
clean_options (value ∷ values) =
    let clean = clean_text value in
    let rest = clean_options values in if is_empty clean then rest else clean ∷ rest

module _ (lower : ℕ → ℕ) (parse_address : Str → Attempt Str) where
  -- `strings.ToLower`
  abbrev pub to_lower : Str → Str
  to_lower = map lower

  -- `NormaliseEmail`
  unfoldable pub normalise_email : Str → Str
  normalise_email email = to_lower (trim_space email)

  -- The address that was parsed is the text itself, and has a dot.
  plain_address : Str → Attempt Str → Bool
  plain_address text (failed _) = false
  plain_address text (done address) = str_eq address text && any (λ c. c == b'.') text

  -- `Validator.Email`
  unfoldable pub email : String → Str → Validator → Str × Validator
  unfolding plain_address
  email field value v =
      let normalised = normalise_email value in
      (
        normalised,
        if is_empty normalised
            then add field "Enter your e-mail address." v
            else if ltb email_max_length (byte_len normalised)
            then add field "That e-mail address is too long." v
            else if plain_address normalised (parse_address normalised)
            then v
            else add field "Enter a valid e-mail address." v,
      )

  -- The second loop of `Options`, which stops at the first complaint.
  unfoldable pub check_options : String → List Str → List Str → Validator → Validator
  check_options field [] seen v = v
  check_options field (option ∷ rest) seen v =
      let key = to_lower option in
      let after = check_options field rest (key ∷ seen) v in
      if ltb option_text_max_length (length option)
      then add field "Each option must be 120 characters or fewer." v
      else if any (str_eq key) seen
      then add field "Each option must be different." v
      else after

  -- `Validator.Options`
  unfoldable pub options : String → List Str → Validator → List Str × Validator
  options field values v =
      let cleaned = clean_options values in
      (
        cleaned,
        if ltb (length cleaned) min_options
            then add field "Add at least 2 options." v
            else if ltb max_options (length cleaned)
            then add field "A poll can have at most 10 options." v
            else check_options field cleaned [] v,
      )
