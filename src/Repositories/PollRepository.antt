-- ===== src/Repositories/PollRepository.antt =====
-- `PollRepository`: backend/internal/repositories/poll_repository.go, over the polls collection, and
-- `ParseObjectID` of repositories.go. What it writes is in Repositories.Polls.
pub mod Filling
use live_polling.Prelude.{Bool, false, zero, suc, List, Str, String, Int64, ◌==◌}
use live_polling.Apperr.{Cause, Code, Result, ok, err, new, wrap, Attempt, done, failed}
use live_polling.Models.{ObjectId, Poll}
use live_polling.Mongo.{Keyed, Collection}
use live_polling.Mongo.Editing.{Editable}
use live_polling.Repositories.Polls.{PollUpdate, apply}
use live_polling.Services.Stores.{ObjectIds, Clock}

-- The polls collection has no unique index but that on `_id`.
abbrev pub poll_keyed : Keyed Poll
poll_keyed = record { with_id = λ p i. record p { id = i }; clash = λ p x. false }

abbrev pub id_of : Poll → ObjectId
id_of p = p.id

-- `PollRepository.Create`, on the answer of the driver.
created : Poll → Attempt ObjectId → Result Poll
created p (done id) = ok (record p { id = id })
created p (failed c) = err (wrap Code.internal "Could not create the poll." c)

-- `ParseObjectID`
unfoldable pub parse_object_id : Attempt ObjectId → Result ObjectId
parse_object_id (done id) = ok id
parse_object_id (failed c) = err (new Code.not_found "Not found.")

-- `findByObjectID` and `Update`, on the answer of the driver, with the text of their other failures.
looked_up : String → Attempt Poll → Result Poll
looked_up text (done p) = ok p
looked_up text (failed Cause.no_documents) = err (new Code.not_found "Poll not found.")
looked_up text (failed c) = err (wrap Code.internal text c)

listing : Attempt (List Poll) → Result (List Poll)
listing (done ps) = ok ps
listing (failed c) = err (wrap Code.internal "Could not load your polls." c)

-- `Delete`, on the number of documents that the driver has deleted.
removed : Attempt Int64 → Result (Unit {0})
removed (failed c) = err (wrap Code.internal "Could not delete the poll." c)
removed (done zero) = err (new Code.not_found "Poll not found.")
removed (done (suc n)) = ok tt

module _ (ids : ObjectIds) (clock : Clock) (col : Collection Poll poll_keyed)
    (edits : Editable col id_of) where
  -- The collection, and the clock that `Update` reads.
  abbrev pub Db : Type 0
  Db = col.Db × clock.Db

  -- `PollRepository.Create`
  unfoldable pub create : Poll → Db → Result Poll × Db
  unfolding created
  create p (d, t) = let (id, d') = col.insert_one p d in (created p id, (d', t))

  -- `findByObjectID`
  find_by_object_id : ObjectId → Db → Result Poll × Db
  unfolding looked_up
  find_by_object_id id (d, t) =
      let (p, d') = col.find_one (λ p. p.id == id) d in
      (looked_up "Could not load the poll." p, (d', t))

  find_parsed : Result ObjectId → Db → Result Poll × Db
  unfolding find_by_object_id
  find_parsed (err e) d = (err e, d)
  find_parsed (ok id) d = find_by_object_id id d

  -- `PollRepository.FindByID`
  unfoldable pub find_by_id : Str → Db → Result Poll × Db
  unfolding find_parsed
  find_by_id id d = find_parsed (parse_object_id (ids.from_hex id)) d

  -- `PollRepository.ListByOwner`
  unfoldable pub list_by_owner : ObjectId → Int64 → Db → Result (List Poll) × Db
  unfolding listing
  list_by_owner owner limit (d, t) =
      let (ps, d') = edits.find (λ p. p.owner_id == owner) (λ p. p.created_at) limit d in
      (listing ps, (d', t))

  -- `PollRepository.Update`
  unfoldable pub update : ObjectId → ObjectId → PollUpdate → Db → Result Poll × Db
  unfolding looked_up
  update id owner u (d, t) =
      let (now, t') = clock.now t in
      let (p, d') = edits.find_one_and_update id (λ p. p.owner_id == owner) (apply u now) d in
      (looked_up "Could not update the poll." p, (d', t'))

  -- `PollRepository.Delete`
  unfoldable pub delete : ObjectId → ObjectId → Db → Result (Unit {0}) × Db
  unfolding removed
  delete id owner (d, t) =
      let (n, d') = edits.delete_one id (λ p. p.owner_id == owner) d in (removed n, (d', t))
