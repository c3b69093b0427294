-- ===== src/Validation/Tests.antt =====
-- The input rules at examples.
use live_polling.Prelude.{
  ◌≤◌, ◌≡◌, refl, true, List, [], ◌∷◌, Str, str_eq, codes, length, is_empty, All, false,
}
use live_polling.Apperr.{done}
use live_polling.Validation.{valid, question, clean_options, check_options, options}
use live_polling.Validation.Text.{clean_text, is_space, join}
use live_polling.Validation.Clean.{IsWord, clean_text-words, clean_text_idem}
use live_polling.Validation.Accepted.{Different, question_accepted, options_accepted}

abbrev spaced : Str
spaced = codes "  Tea   or coffee "

abbrev asked : Str
asked = codes "Tea or coffee"

abbrev offered : List Str
offered = codes " Tea" ∷ codes "" ∷ codes "Coffee" ∷ []

abbrev kept : List Str
kept = codes "Tea" ∷ codes "Coffee" ∷ []

clean_text-words_example : (ws : List Str) × All IsWord ws × (clean_text spaced ≡ join ws)
clean_text-words_example = clean_text-words spaced

clean_text_idem_example : clean_text (clean_text spaced) ≡ clean_text spaced
clean_text_idem_example = clean_text_idem spaced

question_accepted_example :
    ((question "question" spaced []).0 ≡ clean_text spaced)
    × (3 ≤ length (question "question" spaced []).0)
    × (length (question "question" spaced []).0 ≤ 300)
    × (valid [] ≡ true)
unfolding question clean_text is_space
question_accepted_example = question_accepted "question" spaced [] refl

options_accepted_example :
    let os = (options (λ c. c) done "options" offered []).0 in
    (os ≡ clean_options offered)
    × (2 ≤ length os)
    × (length os ≤ 10)
    × All (λ o. is_empty o ≡ false) os
    × All (λ o. length o ≤ 120) os
    × Different (λ c. c) done os []
    × (valid [] ≡ true)
unfolding options clean_text is_space clean_options str_eq check_options
options_accepted_example = options_accepted (λ c. c) done "options" offered [] refl
