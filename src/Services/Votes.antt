-- ===== src/Services/Votes.antt =====
-- `VoteService`: backend/internal/services/vote_service.go.
pub mod Casting
pub mod Accepting
pub mod Repeated
use live_polling.Prelude.{ℕ, not, ◌||◌, [], ◌∷◌, Str, is_empty, length, ltb, if◌then◌else◌}
use live_polling.Apperr.{Code, Error, Result, ok, err, new, invalid, Attempt, done, failed}
use live_polling.Models.{ObjectId, Time, Poll, Vote, has_option, accepts_votes}
use live_polling.Services.World.{Stores, World, Action}
use live_polling.Services.Results.{Results, for_poll, record_vote}
use live_polling.Services.Realtime.{publish_results}

-- `maxOptionIDLength`
abbrev pub max_option_id_length : ℕ
max_option_id_length = 64

abbrev pub no_voter : Error
no_voter = new Code.internal "Could not identify your browser. Please enable cookies and try again."

abbrev pub no_choice : Error
no_choice = invalid "Choose one of the options." (("optionId", "Choose one of the options.") ∷ [])

abbrev pub foreign_option : Error
foreign_option =
    invalid "That option is not part of this poll."
      (("optionId", "Choose one of the options.") ∷ [])

abbrev pub closed_poll : Error
closed_poll = new Code.poll_closed "This poll is closed, so votes are no longer being accepted."

-- The vote of `Cast`, before the database gives it an id.
abbrev pub ballot : Poll → Str → Str → Time → Vote
ballot poll option_id voter_id t = record {
  id = 0;
  poll_id = poll.id;
  option_id = option_id;
  voter_id = voter_id;
  created_at = t;
}

module _ (s : Stores) where
  -- The end of `Cast`: the new standing is announced if there is one.
  unfoldable pub finish : Result Results × World s → Result Results × World s
  unfolding publish_results
  finish (err e, w) = (err e, w)
  finish (ok r, w) = (ok r, if s.has_broadcast then publish_results s r w else w)

  -- `Cast` after the vote has been handed to the store.
  unfoldable pub cast_stored : Poll → Str → Result Vote → Action s Results
  unfolding finish
  cast_stored poll option_id (err e) w = (err e, w)
  cast_stored poll option_id (ok v) w = finish (for_poll s poll (record_vote s poll option_id w))

  -- `Cast` on a poll that is open: the vote is stored first.
  unfoldable pub cast_open : Poll → Str → Str → Action s Results
  unfolding cast_stored
  cast_open poll option_id voter_id w =
      let (now, clock) = s.clock.now w.clock in
      let (stored, votes) = s.votes.create (ballot poll option_id voter_id now) w.votes in
      cast_stored poll option_id stored (record w { votes = votes; clock = clock })

  -- `Cast` once the poll has been looked up.
  unfoldable pub cast_found : Result Poll → Str → Str → Action s Results
  unfolding cast_open
  cast_found (err e) option_id voter_id w = (err e, w)
  cast_found (ok poll) option_id voter_id w =
      if has_option poll option_id
      then (let (now, clock) = s.clock.now w.clock in
          let w' : World s = record w { clock = clock } in
          if accepts_votes poll now
          then cast_open poll option_id voter_id w'
          else (err closed_poll, w'))
      else (err foreign_option, w)

  -- `VoteService.Cast`
  unfoldable pub cast : Str → Str → Str → Action s Results
  unfolding cast_found
  cast poll_id option_id voter_id w =
      let (found, polls) = s.polls.find_by_id poll_id w.polls in
      if is_empty voter_id
      then (err no_voter, w)
      else if is_empty option_id || ltb max_option_id_length (length option_id)
      then (err no_choice, w)
      else cast_found found option_id voter_id (record w { polls = polls })

  results_found : Result Poll → Action s Results
  results_found (err e) w = (err e, w)
  results_found (ok poll) w = for_poll s poll w

  -- `VoteService.Results`
  unfoldable pub results : Str → Action s Results
  unfolding results_found
  results poll_id w =
      let (found, polls) = s.polls.find_by_id poll_id w.polls in
      results_found found (record w { polls = polls })

  -- A failed lookup counts as "no recorded choice".
  choice_of : Result Vote → Str
  choice_of (err e) = []
  choice_of (ok v) = v.option_id

  vote_of_parsed : Attempt ObjectId → Str → World s → Str × World s
  unfolding choice_of
  vote_of_parsed (failed _) voter_id w = ([], w)
  vote_of_parsed (done id) voter_id w =
      let (found, votes) = s.votes.find_by_poll_and_voter id voter_id w.votes in
      (choice_of found, record w { votes = votes })

  -- `VoteService.VoteOf`
  unfoldable pub vote_of : Str → Str → World s → Str × World s
  unfolding vote_of_parsed
  vote_of poll_id voter_id w =
      if is_empty voter_id then ([], w) else vote_of_parsed (s.ids.from_hex poll_id) voter_id w
