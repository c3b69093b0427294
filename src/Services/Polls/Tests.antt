-- ===== src/Services/Polls/Tests.antt =====
-- Polls at examples.
use live_polling.Prelude.{◌≡◌, List, refl, false, none, some, [], ◌∷◌, codes, str_eq}
use live_polling.Apperr.{ok}
use live_polling.Models.{Poll, PollStatus}
use live_polling.Validation.{question, options, check_options, clean_options}
use live_polling.Validation.Text.{clean_text, is_space}
use live_polling.Services.Sample.{clock, site, morning, lunch, stored_vote}
use live_polling.Services.Polls.{
  CreatePollInput, UpdatePollInput, create, update, delete, new_options, validate_expiry,
  create_from,
}
use live_polling.Services.Polls.Editing.{Edit, update-Edit}
use live_polling.Services.Polls.Deleting.{PollFirst, delete-PollFirst}
use live_polling.Repositories.Votes.{totals_by_polls, put_totals}
use live_polling.Services.Stores.{PollStore}
use live_polling.Services.World.{Stores, World}
use live_polling.Mongo.Memory.{memory}
use live_polling.Mongo.Memory.Pages.{editable}
use live_polling.Repositories.PollRepository.{poll_keyed, id_of, list_by_owner}
use live_polling.Repositories.PollRepository.Filling.{poll_store}
use live_polling.Services.Polls.Listing.{
  PollWithTotal, with_totals, list_for_owner, IsDashboard, list_for_owner-IsDashboard,
}
use live_polling.Services.Polls.Creating.{IsRequested, create-IsRequested}

abbrev tea_input : CreatePollInput
tea_input = record {
  question = codes " Tea  or coffee";
  options = codes "Tea" ∷ codes " " ∷ codes "Coffee" ∷ [];
  expires_at = some 1000;
}

abbrev tea : Poll
tea = record {
  id = 2;
  owner_id = 1;
  question = codes "Tea or coffee";
  options =
      record { id = 1 ∷ []; text = codes "Tea" }
      ∷ record { id = 2 ∷ []; text = codes "Coffee" }
      ∷ [];
  status = PollStatus.active;
  created_at = 31;
  updated_at = 31;
  expires_at = some 1000;
}

abbrev extension : UpdatePollInput
extension = record { question = none; options = none; expires_at = some 5000; clear_expiry = false }

update-Edit_example :
    Edit 1
      (ok lunch)
      (stored_vote ∷ [])
      (lunch ∷ [])
      (update site 1 (7 ∷ []) extension morning).1.polls
update-Edit_example = update-Edit site 1 (7 ∷ []) extension morning

create-IsRequested_example : IsRequested site 1 tea_input 30 tea
unfolding create question options check_options clean_options clean_text is_space str_eq new_options
    validate_expiry create_from
create-IsRequested_example = create-IsRequested site 1 tea_input morning tea refl

delete-PollFirst_example : PollFirst site 1 (ok lunch) morning (delete site 1 (7 ∷ []) morning).1
delete-PollFirst_example = delete-PollFirst site 1 (7 ∷ []) morning

-- The same site with the poll repository over a collection in memory.
abbrev polls_in_memory : PollStore site.ids
polls_in_memory = poll_store site.ids clock (memory poll_keyed) (editable poll_keyed id_of)

abbrev stored_site : Stores
stored_site = record site { polls = polls_in_memory }

-- A newer poll of the same owner, and one of another.
abbrev dinner : Poll
dinner = record lunch { id = 8; created_at = 20 }

abbrev polls_at_noon : polls_in_memory.Db
polls_at_noon = (
  record {
    docs = lunch ∷ dinner ∷ record lunch { id = 9; owner_id = 2 } ∷ [];
    next_id = 10;
    faults = [];
  },
  30,
)

abbrev noon : World stored_site
noon = record {
  polls = polls_at_noon;
  votes = morning.votes;
  counters = morning.counters;
  bus = morning.bus;
  clock = morning.clock;
  random = morning.random;
}

abbrev overview : List PollWithTotal
overview = record { poll = dinner; total_votes = 0 } ∷ record { poll = lunch; total_votes = 1 } ∷ []

list_for_owner_works : (list_for_owner stored_site 1 noon).0 ≡ ok overview
unfolding list_for_owner with_totals totals_by_polls put_totals list_by_owner
list_for_owner_works = refl

list_for_owner-IsDashboard_example : IsDashboard stored_site 1 noon overview
list_for_owner-IsDashboard_example =
    list_for_owner-IsDashboard stored_site 1 noon overview list_for_owner_works
