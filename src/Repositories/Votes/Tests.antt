-- ===== src/Repositories/Votes/Tests.antt =====
-- The vote repository at examples, on a collection in memory.
use live_polling.Prelude.{◌≡◌, refl, ◌⊎◌, true, false, [], ◌∷◌, ◌++◌, codes, str_eq}
use live_polling.Apperr.{Code, Error, new}
use live_polling.Models.{ObjectId, Vote}
use live_polling.Mongo.Memory.{Memory, memory}
use live_polling.Services.Stores.{voted, with_id, IsTally}
use live_polling.Repositories.Votes.{vote_keyed, create, counts_by_poll}
use live_polling.Repositories.Votes.Filling.{create_ok, create_err, counts-IsTally}

abbrev first_vote : Vote
first_vote = record {
  id = 0;
  poll_id = 7;
  option_id = codes "a1";
  voter_id = codes "v1";
  created_at = 20;
}

abbrev changed_mind : Vote
changed_mind = record first_vote { option_id = codes "b2" }

abbrev none_yet : Memory Vote
none_yet = record { docs = []; next_id = 5; faults = [] }

abbrev one_vote : Memory Vote
one_vote = record { docs = with_id first_vote 5 ∷ []; next_id = 6; faults = [] }

abbrev refusal : Error
refusal = new Code.already_voted "You have already voted in this poll."

create_ok_example :
    (voted 7 (codes "v1") [] ≡ false)
    × ((i : ObjectId) × (with_id first_vote 5 ≡ with_id first_vote i))
    × ((create (memory vote_keyed) first_vote none_yet).1.docs ≡ [] ++ with_id first_vote 5 ∷ [])
unfolding create
create_ok_example = create_ok (memory vote_keyed) first_vote (with_id first_vote 5) none_yet refl

create_err_example :
    ((refusal.code ≡ Code.already_voted)
      × (voted 7 (codes "v1") one_vote.docs ≡ true)
      × ((create (memory vote_keyed) changed_mind one_vote).1.docs ≡ one_vote.docs))
    ⊎ ((refusal.code ≡ Code.internal)
        × (((create (memory vote_keyed) changed_mind one_vote).1.docs ≡ one_vote.docs)
            ⊎ ((i : ObjectId) × (voted 7 (codes "v1") one_vote.docs ≡ false)
                × ((create (memory vote_keyed) changed_mind one_vote).1.docs
                    ≡ one_vote.docs ++ with_id changed_mind i ∷ []))))
unfolding create str_eq
create_err_example = create_err (memory vote_keyed) changed_mind one_vote refusal refl

counts-IsTally_example : IsTally 7 one_vote.docs (record { option_id = codes "a1"; count = 1 } ∷ [])
unfolding counts_by_poll str_eq
counts-IsTally_example =
    counts-IsTally (memory vote_keyed) 7 one_vote
      (record { option_id = codes "a1"; count = 1 } ∷ []) refl
