-- ===== src/Models/Laws.antt =====
-- When a poll can be voted on (backend/internal/models/poll.go).
use live_polling.Prelude.{
  ◌≤◌, ◌<◌, ◌≡◌, refl, ◌↔◌, true, none, some, List, [], ◌∷◌, map, arith, any, Str, str_eq,
}
use live_polling.Models.{
  Poll, PollOption, PollStatus, Time, has_option, has_option_in, accepts_votes, effective_status,
  option_ids,
}

-- A poll accepts votes at an instant exactly when the status that a client is shown then is active.
pub accepts_votes_iff_active :
    (p : Poll) (now : Time)
    → (accepts_votes p now ≡ true) ↔ (effective_status p now ≡ PollStatus.active)
unfolding accepts_votes effective_status
accepts_votes_iff_active p now = ground arith

-- A poll whose stored status is active accepts votes exactly before its expiry, and always where it
-- has none.
pub accepts_votes_until_expiry :
    (p : Poll) (now : Time)
    → p.status ≡ PollStatus.active
    → (p.expires_at ≡ none → accepts_votes p now ≡ true)
      × ((t : Time) → p.expires_at ≡ some t → (accepts_votes p now ≡ true) ↔ (now < t))
unfolding accepts_votes
accepts_votes_until_expiry p now h =
    (λ e. ground arith, λ t e. (λ a. ground arith, λ l. ground arith))

-- Once a poll refuses votes it refuses them at every later instant, as long as it is not edited.
pub accepts_votes_antitone :
    (p : Poll) (now later : Time)
    → now ≤ later
    → accepts_votes p later ≡ true
    → accepts_votes p now ≡ true
unfolding accepts_votes
accepts_votes_antitone p now later h a = ground arith

has_option_in-any :
    (o : Str) (opts : List PollOption)
    → has_option_in opts o ≡ any (λ i. str_eq i o) (map (λ x. x.id) opts)
unfolding has_option_in
has_option_in-any o [] = refl
has_option_in-any o (x ∷ opts) = ground (arith, has_option_in-any o opts)

-- The test of membership agrees with the list of option ids that the results layer renders.
pub has_option-option_ids :
    (p : Poll) (o : Str) → has_option p o ≡ any (λ i. str_eq i o) (option_ids p)
unfolding has_option option_ids
has_option-option_ids p o = has_option_in-any o p.options
