-- ===== src/Repositories/Votes.antt =====
-- `VoteRepository`: backend/internal/repositories/vote_repository.go, over the votes collection with
-- its unique index on (pollId, voterId) from backend/internal/database/indexes.go.
pub mod Totals
pub mod Filling
mod Tests
use live_polling.Prelude.{
  Bool, ◌&&◌, List, [], ◌∷◌, map, Str, str_eq, Int64, ◌==◌, any, count, if◌then◌else◌,
}
use live_polling.Apperr.{
  Cause, duplicate_key, no_documents, Code, Result, ok, err, new, wrap, Attempt, done, failed,
}
use live_polling.Models.{ObjectId, Vote, OptionCount}
use live_polling.Mongo.{Keyed, Collection}
use live_polling.Services.Stores.{voted, tally, with_id}

-- The index `uniq_poll_voter`.
abbrev pub uniq_poll_voter : Vote → Vote → Bool
uniq_poll_voter v x = x.poll_id == v.poll_id && str_eq x.voter_id v.voter_id

abbrev pub vote_keyed : Keyed Vote
vote_keyed = record { with_id = with_id; clash = uniq_poll_voter }

-- `VoteRepository.Create`, on the answer of the driver.
created : Vote → Attempt ObjectId → Result Vote
created v (done id) = ok (with_id v id)
created v (failed Cause.duplicate_key) =
    err (new Code.already_voted "You have already voted in this poll.")
created v (failed c) = err (wrap Code.internal "Could not record your vote." c)

looked_up : Attempt Vote → Result Vote
looked_up (done v) = ok v
looked_up (failed Cause.no_documents) = err (new Code.not_found "No vote recorded.")
looked_up (failed c) = err (wrap Code.internal "Could not look up your vote." c)

tallied : Attempt (List (Str × Int64)) → Result (List OptionCount)
tallied (done rows) = ok (map (λ r. record { option_id = r.0; count = r.1 }) rows)
tallied (failed c) = err (wrap Code.internal "Could not tally the votes." c)

counted : Attempt Int64 → Result Int64
counted (done n) = ok n
counted (failed c) = err (wrap Code.internal "Could not count the votes." c)

-- A Go map from polls to totals, as what `totals[p]` reads: zero on a missing key.
abbrev pub Totals : Type 0
Totals = ObjectId → Int64

abbrev pub no_totals : Totals
no_totals p = 0

-- The loop of `TotalsByPolls` over the rows.
unfoldable pub put_totals : List (ObjectId × Int64) → Totals → Totals
put_totals [] m = m
put_totals (r ∷ rows) m = put_totals rows (λ p. if p == r.0 then r.1 else m p)

totalled : Attempt (List (ObjectId × Int64)) → Result Totals
totalled (done rows) = ok (put_totals rows no_totals)
totalled (failed c) = err (wrap Code.internal "Could not count the votes." c)

deleted : Attempt (Unit {0}) → Result (Unit {0})
deleted (done _) = ok tt
deleted (failed c) = err (wrap Code.internal "Could not delete the poll's votes." c)

module _ (col : Collection Vote vote_keyed) where
  -- `VoteRepository.Create`
  unfoldable pub create : Vote → col.Db → Result Vote × col.Db
  unfolding created
  create v d = let (id, d') = col.insert_one v d in (created v id, d')

  -- `VoteRepository.FindByPollAndVoter`
  unfoldable pub find_by_poll_and_voter : ObjectId → Str → col.Db → Result Vote × col.Db
  unfolding looked_up
  find_by_poll_and_voter poll_id voter_id d =
      let (v, d') = col.find_one (λ v. v.poll_id == poll_id && str_eq v.voter_id voter_id) d in
      (looked_up v, d')

  -- `VoteRepository.CountsByPoll`
  unfoldable pub counts_by_poll : ObjectId → col.Db → Result (List OptionCount) × col.Db
  unfolding tallied
  counts_by_poll poll_id d =
      let (rows, d') = col.group_count str_eq (λ v. v.poll_id == poll_id) (λ v. v.option_id) d in
      (tallied rows, d')

  -- `VoteRepository.CountByPoll`
  unfoldable pub count_by_poll : ObjectId → col.Db → Result Int64 × col.Db
  unfolding counted
  count_by_poll poll_id d =
      let (n, d') = col.count_documents (λ v. v.poll_id == poll_id) d in (counted n, d')

  -- `VoteRepository.TotalsByPolls`
  unfoldable pub totals_by_polls : List ObjectId → col.Db → Result Totals × col.Db
  unfolding totalled
  totals_by_polls [] d = (ok no_totals, d)
  totals_by_polls (i ∷ is) d =
      let (rows, d') =
        col.group_count ◌==◌ (λ v. any (λ p. p == v.poll_id) (i ∷ is)) (λ v. v.poll_id) d in
      (totalled rows, d')

  -- `VoteRepository.DeleteByPoll`
  unfoldable pub delete_by_poll : ObjectId → col.Db → Result (Unit {0}) × col.Db
  unfolding deleted
  delete_by_poll poll_id d =
      let (u, d') = col.delete_many (λ v. v.poll_id == poll_id) d in (deleted u, d')
