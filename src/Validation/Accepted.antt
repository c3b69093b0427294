-- ===== src/Validation/Accepted.antt =====
-- What is known of input that the rules accept (backend/internal/validation/validation.go).
use live_polling.Prelude.{
  ℕ, ◌≤◌, ◌≡◌, refl, String, true, false, List, [], ◌∷◌, ◌++◌, map, arith, Str, str_eq, is_empty,
  length, any, All, if_elim,
}
use text.Mathlib.Text.{◌==◌ as string_eq}
use live_polling.Apperr.{Attempt}
use live_polling.Validation.Text.{clean_text}
use live_polling.Validation.{Validator, add, valid, question, clean_options, check_options, options}

pub add_invalid : (f m : String) (v : Validator) → valid (add f m v) ≡ false
unfolding add
add_invalid f m [] = refl
add_invalid f m (e ∷ v) =
    if_elim (λ (x : Validator). valid x ≡ false)
      (any (λ (q : String × String). string_eq q.0 f) (e ∷ v)) (e ∷ v) ((e ∷ v) ++ (f, m) ∷ [])
      (λ _. refl) (λ _. refl)

-- A question that leaves the validator without a complaint is the cleaned text and has 3 to 300
-- characters.
pub question_accepted :
    (f : String) (value : Str) (v : Validator)
    → valid (question f value v).1 ≡ true
    → ((question f value v).0 ≡ clean_text value)
      × (3 ≤ length (question f value v).0)
      × (length (question f value v).0 ≤ 300)
      × (valid v ≡ true)
unfolding question
question_accepted f value v h = ground (
  arith,
  add_invalid f "Enter a question." v,
  add_invalid f "The question must be at least 3 characters." v,
  add_invalid f "The question must be 300 characters or fewer." v,
)

-- The labels that are kept are not empty.
clean_options-nonempty : (vs : List Str) → All (λ o. is_empty o ≡ false) (clean_options vs)
unfolding clean_options
clean_options-nonempty [] = tt
clean_options-nonempty (x ∷ vs) = ground (arith, clean_options-nonempty vs)

module _ (lower : ℕ → ℕ) (parse_address : Str → Attempt Str) where
  -- No two labels have the same lower case, and none has that of a label seen before.
  abbrev pub Different : List Str → List Str → Type 0
  Different [] seen = Unit
  Different (o ∷ os) seen =
      (any (str_eq (map lower o)) seen ≡ false) × Different os (map lower o ∷ seen)

  check_options_accepted :
      (f : String) (os seen : List Str) (v : Validator)
      → valid (check_options lower parse_address f os seen v) ≡ true
      → All (λ o. length o ≤ 120) os × Different os seen × (valid v ≡ true)
  unfolding check_options
  check_options_accepted f [] seen v h = (tt, tt, h)
  check_options_accepted f (o ∷ os) seen v h = ground (
    arith,
    add_invalid f "Each option must be 120 characters or fewer." v,
    add_invalid f "Each option must be different." v,
    check_options_accepted f os (map lower o ∷ seen) v,
  )

  -- A list of options that leaves the validator without a complaint is the cleaned labels, in order
  -- and without the empty ones; they are 2 to 10, each of 1 to 120 characters, and no two of them
  -- are the same in lower case.
  pub options_accepted :
      (f : String) (values : List Str) (v : Validator)
      → valid (options lower parse_address f values v).1 ≡ true
      → let os = (options lower parse_address f values v).0 in
        (os ≡ clean_options values)
        × (2 ≤ length os)
        × (length os ≤ 10)
        × All (λ o. is_empty o ≡ false) os
        × All (λ o. length o ≤ 120) os
        × Different os []
        × (valid v ≡ true)
  unfolding options
  options_accepted f values v h = ground (
    arith,
    add_invalid f "Add at least 2 options." v,
    add_invalid f "A poll can have at most 10 options." v,
    check_options_accepted f (clean_options values) [] v,
    clean_options-nonempty values,
  )
