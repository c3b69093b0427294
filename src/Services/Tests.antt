-- ===== src/Services/Tests.antt =====
-- The services at an example: a second voter in the poll of `Sample`.
use live_polling.Prelude.{◌≡◌, ◌≢◌, refl, subst, true, false, [], ◌∷◌, ◌++◌, str_eq, codes}
use live_polling.Apperr.{Cause, Code, Error, wrap, ok, err, failed, ok-injective}
use live_polling.Models.{Poll, PollStatus, Vote, has_option, accepts_votes, effective_status}
use live_polling.Services.Stores.{voted}
use live_polling.Services.World.{World}
use live_polling.Services.Results.{Results, seed, take_rows, for_poll, record_vote}
use live_polling.Services.Results.Standing.{IsStanding, stored}
use live_polling.Services.Results.Reading.{IsCached, for_poll-IsStanding, for_poll_err}
use live_polling.Services.Results.Recording.{Recorded, record_vote-Recorded}
use live_polling.Services.Votes.{cast}
use live_polling.Services.Votes.Casting.{Effect, cast-Effect}
use live_polling.Services.Votes.Accepting.{cast-IsStanding}
use live_polling.Services.Votes.Repeated.{cast-cast}
use live_polling.Redis.Counters.{results, read_hash, increment_option, replace_results, results_key}
use live_polling.Strconv.{parse_int, format_int, digits}
use live_polling.Repositories.Votes.{counts_by_poll, create}
use live_polling.Services.Sample.{site, morning, lunch, stored_vote}

abbrev second_vote : Vote
second_vote = record {
  id = 1;
  poll_id = 7;
  option_id = codes "b2";
  voter_id = codes "v2";
  created_at = 31;
}

-- The standing of `lunch` with one vote for each option.
abbrev level : Results
level = record {
  poll_id = 7 ∷ [];
  options =
      record { option_id = codes "a1"; text = codes "Pizza"; count = 1 }
      ∷ record { option_id = codes "b2"; text = codes "Sushi"; count = 1 }
      ∷ [];
  total_votes = 2;
  status = PollStatus.active;
  computed_at = 33;
}

abbrev one_ahead : Results
one_ahead = record {
  poll_id = 7 ∷ [];
  options =
      record { option_id = codes "a1"; text = codes "Pizza"; count = 1 }
      ∷ record { option_id = codes "b2"; text = codes "Sushi"; count = 0 }
      ∷ [];
  total_votes = 1;
  status = PollStatus.active;
  computed_at = 30;
}

-- The votes collection does not answer.
abbrev outage : World site
outage = record morning { votes = record morning.votes { faults = true ∷ [] } }

abbrev untallied : Error
untallied = wrap Code.internal "Could not tally the votes." (Cause.other 0)

abbrev evening : World site
evening = record morning { votes = record morning.votes { docs = stored_vote ∷ second_vote ∷ [] } }

for_poll-IsStanding_example :
    IsStanding site lunch (stored site lunch morning) one_ahead
    × (stored site lunch (for_poll site lunch morning).1 ≡ stored site lunch morning)
    × IsCached site lunch (for_poll site lunch morning).1
unfolding for_poll results read_hash counts_by_poll effective_status str_eq seed take_rows
for_poll-IsStanding_example = for_poll-IsStanding site lunch morning one_ahead (λ on. tt) refl

for_poll_err_example : (site.votes.counts_by_poll 7 outage.votes).0 ≡ err untallied
unfolding for_poll results read_hash counts_by_poll effective_status str_eq seed take_rows
for_poll_err_example = for_poll_err site lunch outage untallied refl

record_vote-Recorded_example :
    Recorded site lunch
      (stored_vote ∷ [])
      (site.counters.increment_option (7 ∷ []) (codes "b2") evening.counters).0
      evening
      (record_vote site lunch (codes "b2") evening)
unfolding read_hash
record_vote-Recorded_example =
    record_vote-Recorded site lunch (stored_vote ∷ []) second_vote evening refl refl (λ on. tt)

cast-Effect_example :
    Effect
      (codes "b2")
      (codes "v2")
      (ok lunch)
      30
      (stored_vote ∷ [])
      (site.votes.votes (cast site (7 ∷ []) (codes "b2") (codes "v2") morning).1.votes)
cast-Effect_example = cast-Effect site (codes "b2") (codes "v2") (7 ∷ []) morning

-- The conditions under which the result is the standing hold there.
second_ready :
    (p : Poll)
    → (site.polls.find_by_id (7 ∷ []) morning.polls).0 ≡ ok p
    → IsCached site p morning
      × ((c : Cause)
          → (site.counters.increment_option (site.ids.hex p.id) (codes "b2") morning.counters).0
            ≢ failed c)
unfolding read_hash increment_option
second_ready p found =
    subst
      (λ (q : Poll).
        IsCached site q morning
        × ((c : Cause)
            → (site.counters.increment_option (site.ids.hex q.id) (codes "b2") morning.counters).0
              ≢ failed c))
      (ok-injective found) ((λ on. tt), (λ c h. cc))

cast-IsStanding_example :
    (p : Poll) × (v : Vote) × ((ok lunch) ≡ ok p)
    × (has_option p (codes "b2") ≡ true)
    × (accepts_votes p 30 ≡ true)
    × (voted p.id (codes "v2") (stored_vote ∷ []) ≡ false)
    × ((v.poll_id ≡ p.id) × (v.option_id ≡ codes "b2") × (v.voter_id ≡ codes "v2"))
    × (site.votes.votes (cast site (7 ∷ []) (codes "b2") (codes "v2") morning).1.votes
        ≡ (stored_vote ∷ []) ++ v ∷ [])
    × (IsCached site p morning
        → ((c : Cause)
            → (site.counters.increment_option (site.ids.hex p.id) (codes "b2") morning.counters).0
              ≢ failed c)
        → IsStanding site p
            (site.votes.votes (cast site (7 ∷ []) (codes "b2") (codes "v2") morning).1.votes)
            level
          × IsCached site p (cast site (7 ∷ []) (codes "b2") (codes "v2") morning).1)
unfolding cast create for_poll results read_hash increment_option counts_by_poll effective_status
    has_option accepts_votes str_eq seed take_rows record_vote replace_results results_key parse_int
    format_int digits
cast-IsStanding_example = cast-IsStanding site (codes "b2") (codes "v2") level (7 ∷ []) morning refl

-- The same voter comes again, for another option, after the first vote.
cast-cast_example :
    let w' = (cast site (7 ∷ []) (codes "b2") (codes "v2") morning).1 in
    let again = cast site (7 ∷ []) (codes "a1") (codes "v2") w' in
    (site.votes.votes again.1.votes ≡ site.votes.votes w'.votes) × ((e : Error) × (again.0 ≡ err e))
unfolding cast create for_poll results read_hash increment_option counts_by_poll effective_status
    has_option accepts_votes str_eq seed take_rows record_vote replace_results results_key parse_int
    format_int digits
cast-cast_example =
    cast-cast site (codes "b2") (codes "a1") (codes "v2") (7 ∷ []) morning
      (cast site (7 ∷ []) (codes "b2") (codes "v2") morning).1 level refl (λ v m. m)
