-- ===== src/Repositories/Votes/Filling.antt =====
-- The vote repository fills the interface `VoteStore` of the services
-- (backend/internal/repositories/vote_repository.go).
use live_polling.Prelude.{
  ◌≡◌, ◌≢◌, refl, sym, ap, subst, ◌∙◌, ◌⊎◌, inl, inr, true, false, List, [], ◌∷◌, ◌++◌, map, arith,
  Str, str_eq, str_eq_iff, Int64, int64, ◌==◌, All, count, any,
}
use live_polling.Apperr.{
  Cause, duplicate_key, no_documents, Code, Error, ok, err, ok-injective, err-injective, Attempt,
  done, failed,
}
use live_polling.Models.{ObjectId, Vote, OptionCount}
use live_polling.Mongo.{Collection, IsGrouping}
use live_polling.Services.Stores.{VoteStore, IsTally, voted, tally, with_id}
use live_polling.Repositories.Votes.{
  vote_keyed, created, tallied, counted, create, find_by_poll_and_voter, counts_by_poll,
  count_by_poll, delete_by_poll, totals_by_polls,
}
use live_polling.Repositories.Votes.Totals.{totals_tally}

created_ok :
    (v v' : Vote) (a : Attempt ObjectId)
    → created v a ≡ ok v'
    → (i : ObjectId) × (a ≡ done i) × (v' ≡ with_id v i)
unfolding created
created_ok v v' (done i) h = (i, refl, sym (ok-injective h))
created_ok v v' (failed Cause.duplicate_key) h = cc
created_ok v v' (failed c) h = cc

created_err :
    (v : Vote) (e : Error) (a : Attempt ObjectId)
    → created v a ≡ err e
    → ((a ≡ failed duplicate_key) × (e.code ≡ Code.already_voted))
      ⊎ ((c : Cause) × (a ≡ failed c) × (c ≢ duplicate_key) × (e.code ≡ Code.internal))
unfolding created
created_err v e (done i) h = cc
created_err v e (failed Cause.duplicate_key) h =
    inl (refl, ap (λ x. x.code) (sym (err-injective h)))
created_err v e (failed Cause.no_documents) h =
    inr (no_documents, refl, (λ q. cc), ap (λ x. x.code) (sym (err-injective h)))
created_err v e (failed (Cause.other n)) h =
    inr (Cause.other n, refl, (λ q. cc), ap (λ x. x.code) (sym (err-injective h)))

counted_ok : (a : Attempt Int64) (n : Int64) → counted a ≡ ok n → a ≡ done n
unfolding counted
counted_ok (done m) n h = ap done (ok-injective h)
counted_ok (failed c) n h = cc

abbrev option_row : Str × Int64 → OptionCount
option_row r = record { option_id = r.0; count = r.1 }

tallied-IsTally :
    (p : ObjectId) (vs : List Vote) (a : Attempt (List (Str × Int64))) (rows : List OptionCount)
    → ((rs : List (Str × Int64))
        → a ≡ done rs
        → IsGrouping str_eq (λ v. v.poll_id == p) (λ v. v.option_id) vs rs)
    → tallied a ≡ ok rows
    → IsTally p vs rows
unfolding tallied
tallied-IsTally p vs (failed c) rows g h = cc
tallied-IsTally p vs (done rs) rows g h =
    subst (IsTally p vs) (ok-injective h)
      (right rs (g rs refl).0, λ o pos. row_of rs o ∙ (g rs refl).1 o pos)
  where
    right :
        (xs : List (Str × Int64))
        → All (λ r. r.1 ≡ int64 (tally p r.0 vs)) xs
        → All (λ r. r.count ≡ int64 (tally p r.option_id vs)) (map option_row xs)
    right [] all = tt
    right (x ∷ xs) all = (all.0, right xs all.1)

    row_of :
        (xs : List (Str × Int64)) (o : Str)
        → any (λ r. str_eq r.option_id o) (map option_row xs) ≡ any (λ r. str_eq r.0 o) xs
    row_of [] o = refl
    row_of (x ∷ xs) o = ground (arith, row_of xs o)

module _ (col : Collection Vote vote_keyed) where
  -- Over any votes collection that keeps the documented laws and has the unique index, a vote that
  -- `Create` returns is the given one with an id, its voter had no vote in the poll before, and it is
  -- what the collection has gained.
  pub create_ok :
      (v v' : Vote) (d : col.Db)
      → (create col v d).0 ≡ ok v'
      → (voted v.poll_id v.voter_id (col.docs d) ≡ false)
        × ((i : ObjectId) × (v' ≡ with_id v i))
        × (col.docs (create col v d).1 ≡ col.docs d ++ v' ∷ [])
  unfolding create
  create_ok v v' d h =
      let (i, e, is) = created_ok v v' (col.insert_one v d).0 h in
      let (fresh, grown) = col.insert_done v d i e in
      (fresh, (i, is), grown ∙ ap (λ x. col.docs d ++ x ∷ []) (sym is))

  -- Where `Create` refuses a vote as already cast, its voter has a vote in the poll and nothing is
  -- stored; every other error is internal, and then nothing is stored or just this vote, of a voter
  -- who had none in the poll.
  pub create_err :
      (v : Vote) (d : col.Db) (e : Error)
      → (create col v d).0 ≡ err e
      → ((e.code ≡ Code.already_voted)
          × (voted v.poll_id v.voter_id (col.docs d) ≡ true)
          × (col.docs (create col v d).1 ≡ col.docs d))
        ⊎ ((e.code ≡ Code.internal)
            × ((col.docs (create col v d).1 ≡ col.docs d)
                ⊎ ((i : ObjectId) × (voted v.poll_id v.voter_id (col.docs d) ≡ false)
                    × (col.docs (create col v d).1 ≡ col.docs d ++ with_id v i ∷ []))))
  unfolding create
  create_err v d e h = elim (created_err v e (col.insert_one v d).0 h) [
    | inl (dup, code) ↦ let (clash, same) = col.insert_duplicate v d dup in inl (code, clash, same)
    | inr (c, fail, ne, code) ↦ inr (code, col.insert_failed v d c fail ne)
  ]

  -- The rows that `CountsByPoll` returns are the tally of the poll: a row's count is the number of
  -- stored votes for its option, modulo 2^64, and every option with a vote has a row.
  pub counts-IsTally :
      (p : ObjectId) (d : col.Db) (rows : List OptionCount)
      → (counts_by_poll col p d).0 ≡ ok rows
      → IsTally p (col.docs d) rows
  unfolding counts_by_poll
  counts-IsTally p d rows h =
      tallied-IsTally p (col.docs d) _ rows
        (λ rs e. col.group_done str_eq (λ v. v.poll_id == p) (λ v. v.option_id) d rs str_eq_iff e) h

  pub count_lem :
      (p : ObjectId) (d : col.Db) (n : Int64)
      → (count_by_poll col p d).0 ≡ ok n
      → n ≡ int64 (count (λ v. v.poll_id == p) (col.docs d))
  unfolding count_by_poll
  count_lem p d n h = col.count_done (λ v. v.poll_id == p) d n (counted_ok _ n h)

  pub count_reads : (p : ObjectId) (d : col.Db) → col.docs (count_by_poll col p d).1 ≡ col.docs d
  unfolding count_by_poll
  count_reads p d = col.count_reads (λ v. v.poll_id == p) d

  pub counts_reads : (p : ObjectId) (d : col.Db) → col.docs (counts_by_poll col p d).1 ≡ col.docs d
  unfolding counts_by_poll
  counts_reads p d = col.group_reads str_eq (λ v. v.poll_id == p) (λ v. v.option_id) d

  -- The repository over any votes collection that keeps the documented laws and has the unique index.
  abbrev pub vote_store : VoteStore
  vote_store = record {
    Db = col.Db;
    votes = col.docs;
    create = create col;
    find_by_poll_and_voter = find_by_poll_and_voter col;
    counts_by_poll = counts_by_poll col;
    count_by_poll = count_by_poll col;
    delete_by_poll = delete_by_poll col;
    create_ok = create_ok;
    create_err = create_err;
    counts_tally = counts-IsTally;
    counts_reads = counts_reads;
    count_lem = count_lem;
    count_reads = count_reads;
    totals_by_polls = totals_by_polls col;
    totals_tally = totals_tally col;
  }
