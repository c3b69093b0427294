-- ===== src/Repositories/PollRepository/Filling.antt =====
-- The poll repository fills the interface `PollStore` of the services
-- (backend/internal/repositories/poll_repository.go).
use live_polling.Prelude.{
  ◌≡◌, refl, sym, ap, ◌⊎◌, inl, inr, ◌==◌, ==_iff, List, Str, String, Int64, Member,
}
use live_polling.Apperr.{
  Cause, Code, Error, ok, err, ok-injective, err-injective, Attempt, done, failed,
}
use live_polling.Models.{ObjectId, Time, Poll}
use live_polling.Mongo.{Collection, IsPage}
use live_polling.Mongo.Editing.{Editable}
use live_polling.Repositories.Polls.{PollUpdate, updated}
use live_polling.Services.Stores.{ObjectIds, Clock, PollStore}
use live_polling.Repositories.PollRepository.{
  poll_keyed, id_of, created, parse_object_id, looked_up, listing, Db, create, find_by_object_id,
  find_parsed, find_by_id, list_by_owner, update, delete,
}

created_ok :
    (p p' : Poll) (a : Attempt ObjectId)
    → created p a ≡ ok p'
    → (i : ObjectId) × (p' ≡ record p { id = i })
unfolding created
created_ok p p' (done i) h = (i, sym (ok-injective h))
created_ok p p' (failed c) h = cc

looked_up_ok : (t : String) (a : Attempt Poll) (p : Poll) → looked_up t a ≡ ok p → a ≡ done p
unfolding looked_up
looked_up_ok t (done q) p h = ap done (ok-injective h)
looked_up_ok t (failed Cause.no_documents) p h = cc
looked_up_ok t (failed c) p h = cc

looked_up_err :
    (t : String) (a : Attempt Poll) (e : Error)
    → looked_up t a ≡ err e
    → (e.code ≡ Code.not_found) ⊎ (e.code ≡ Code.internal)
unfolding looked_up
looked_up_err t (done q) e h = cc
looked_up_err t (failed Cause.no_documents) e h = inl (ap (λ x. x.code) (sym (err-injective h)))
looked_up_err t (failed c) e h = inr (ap (λ x. x.code) (sym (err-injective h)))

listing_ok : (a : Attempt (List Poll)) (ps : List Poll) → listing a ≡ ok ps → a ≡ done ps
unfolding listing
listing_ok (done qs) ps h = ap done (ok-injective h)
listing_ok (failed c) ps h = cc

module _ (ids : ObjectIds) (clock : Clock) (col : Collection Poll poll_keyed)
    (edits : Editable col id_of) where
  abbrev pub stored : Db ids clock col edits → List Poll
  stored d = col.docs d.0

  pub create_ok :
      (p p' : Poll) (d : Db ids clock col edits)
      → (create ids clock col edits p d).0 ≡ ok p'
      → (i : ObjectId) × (p' ≡ record p { id = i })
  unfolding create
  create_ok p p' d h = created_ok p p' _ h

  found_parsed :
      (a : Attempt ObjectId) (d : Db ids clock col edits) (p : Poll)
      → (find_parsed ids clock col edits (parse_object_id a) d).0 ≡ ok p
      → (a ≡ done p.id) × Member p (stored d)
  unfolding parse_object_id find_parsed find_by_object_id
  found_parsed (failed c) d p h = cc
  found_parsed (done i) d p h =
      let (is, there) = col.find_done _ d.0 p (looked_up_ok _ _ p h) in
      (ap done (sym ((==_iff p.id i).0 is)), there)

  missed_parsed :
      (a : Attempt ObjectId) (d : Db ids clock col edits) (e : Error)
      → (find_parsed ids clock col edits (parse_object_id a) d).0 ≡ err e
      → (e.code ≡ Code.not_found) ⊎ (e.code ≡ Code.internal)
  unfolding parse_object_id find_parsed find_by_object_id
  missed_parsed (failed c) d e h = inl (ap (λ x. x.code) (sym (err-injective h)))
  missed_parsed (done i) d e h = looked_up_err _ _ e h

  parsed_reads :
      (a : Attempt ObjectId) (d : Db ids clock col edits)
      → stored (find_parsed ids clock col edits (parse_object_id a) d).1 ≡ stored d
  unfolding parse_object_id find_parsed find_by_object_id
  parsed_reads (failed c) d = refl
  parsed_reads (done i) d = col.find_reads _ d.0

  -- `FindByID` gives a stored poll whose id the text stands for, or an error that is `not_found` or
  -- internal, and changes nothing.
  pub find_by_id_lem :
      (h : Str) (d : Db ids clock col edits)
      → ((p : Poll)
          → (find_by_id ids clock col edits h d).0 ≡ ok p
          → (ids.from_hex h ≡ done p.id) × Member p (stored d))
        × ((e : Error)
            → (find_by_id ids clock col edits h d).0 ≡ err e
            → (e.code ≡ Code.not_found) ⊎ (e.code ≡ Code.internal))
        × (stored (find_by_id ids clock col edits h d).1 ≡ stored d)
  unfolding find_by_id
  find_by_id_lem h d = (
    found_parsed (ids.from_hex h) d,
    missed_parsed (ids.from_hex h) d,
    parsed_reads (ids.from_hex h) d,
  )

  pub list_page :
      (owner : ObjectId) (limit : Int64) (d : Db ids clock col edits) (ps : List Poll)
      → (list_by_owner ids clock col edits owner limit d).0 ≡ ok ps
      → IsPage (λ p. p.owner_id == owner) (λ p. p.created_at) limit (stored d) ps
  unfolding list_by_owner
  list_page owner limit d ps h = edits.find_page _ _ limit d.0 ps (listing_ok _ ps h)

  -- Whatever `Update` answers, the polls are as they were, or the one with this id and owner has just
  -- the given fields replaced, at the instant that the clock gave.
  pub update_lem :
      (id owner : ObjectId) (u : PollUpdate) (d : Db ids clock col edits)
      → (stored (update ids clock col edits id owner u d).1 ≡ stored d)
        ⊎ ((now : Time) × (stored (update ids clock col edits id owner u d).1
              ≡ updated id owner u now (stored d)))
  unfolding update updated
  update_lem id owner u d = elim (edits.update_docs id (λ p. p.owner_id == owner) _ d.0) [
    | inl same ↦ inl same
    | inr changed ↦ inr ((clock.now d.1).0, changed)
  ]

  -- The repository over any polls collection that keeps the documented laws.
  abbrev pub poll_store : PollStore ids
  poll_store = record {
    Db = Db ids clock col edits;
    polls = stored;
    find_by_id = find_by_id ids clock col edits;
    find_ok = λ h d. (find_by_id_lem h d).0;
    find_err = λ h d. (find_by_id_lem h d).1;
    find_reads = λ h d. (find_by_id_lem h d).2;
    list_by_owner = list_by_owner ids clock col edits;
    list_page = list_page;
    create = create ids clock col edits;
    update = update ids clock col edits;
    delete = delete ids clock col edits;
    create_ok = create_ok;
    update_lem = update_lem;
  }
