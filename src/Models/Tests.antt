-- ===== src/Models/Tests.antt =====
-- The rules of a poll at examples.
use live_polling.Prelude.{◌<◌, ◌≡◌, refl, ◌↔◌, true, none, some, [], ◌∷◌, any, codes, str_eq, arith}
use live_polling.Models.{Poll, PollStatus, has_option, accepts_votes, effective_status, option_ids}
use live_polling.Models.Laws.{
  accepts_votes_iff_active, accepts_votes_until_expiry, accepts_votes_antitone,
  has_option-option_ids,
}

abbrev lunch : Poll
lunch = record {
  id = 7;
  owner_id = 1;
  question = codes "Where to?";
  options =
      record { id = codes "a1"; text = codes "Pizza" }
      ∷ record { id = codes "b2"; text = codes "Sushi" }
      ∷ [];
  status = PollStatus.active;
  created_at = 10;
  updated_at = 10;
  expires_at = some 100;
}

accepts_votes_iff_active_example :
    (accepts_votes lunch 99 ≡ true) ↔ (effective_status lunch 99 ≡ PollStatus.active)
accepts_votes_iff_active_example = accepts_votes_iff_active lunch 99

accepts_votes_until_expiry_example :
    (lunch.expires_at ≡ none → accepts_votes lunch 99 ≡ true)
    × ((t : _) → lunch.expires_at ≡ some t → (accepts_votes lunch 99 ≡ true) ↔ (99 < t))
accepts_votes_until_expiry_example = accepts_votes_until_expiry lunch 99 refl

accepts_votes_antitone_example : accepts_votes lunch 50 ≡ true
unfolding accepts_votes
accepts_votes_antitone_example = accepts_votes_antitone lunch 50 99 (omega arith) refl

has_option-option_ids_example :
    has_option lunch (codes "b2") ≡ any (λ i. str_eq i (codes "b2")) (option_ids lunch)
has_option-option_ids_example = has_option-option_ids lunch (codes "b2")
