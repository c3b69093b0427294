-- ===== src/Services/Polls/Deleting.antt =====
-- What a call of `Delete` does to the votes, and when (backend/internal/services/poll_service.go).
use live_polling.Prelude.{◌≡◌, refl, sym, subst, ◌⊎◌, inl, inr, Str, if_elim}
use live_polling.Apperr.{Attempt, Result, ok, err}
use live_polling.Models.{ObjectId, Poll}
use live_polling.Services.World.{Stores, World}
use live_polling.Services.Results.{delete_results}
use live_polling.Services.Polls.{
  owned_by, get_owned, delete_counters, delete_votes, delete_owned, delete,
}
use live_polling.Services.Polls.Editing.{owned_by_ok}

module _ (s : Stores) where
  delete_results_keeps :
      (k : Str) (w : World s)
      → ((delete_results s k w).1.votes ≡ w.votes) × ((delete_results s k w).1.polls ≡ w.polls)
  unfolding delete_results
  delete_results_keeps k w =
      if_elim {A = Attempt (Unit {0}) × World s}
        (λ q. (q.1.votes ≡ w.votes) × (q.1.polls ≡ w.polls)) s.has_counters _ _ (λ _. (refl, refl))
        (λ _. (refl, refl))

  delete_counters_keeps :
      (p : Poll) (r : Result (Unit {0})) (w : World s)
      → ((delete_counters s p r w).1.votes ≡ w.votes)
        × ((delete_counters s p r w).1.polls ≡ w.polls)
  unfolding delete_counters
  delete_counters_keeps p (err e) w = (refl, refl)
  delete_counters_keeps p (ok _) w =
      if_elim (λ (x : World s). (x.votes ≡ w.votes) × (x.polls ≡ w.polls)) s.has_results _ _
        (λ _. delete_results_keeps (s.ids.hex p.id) w) (λ _. (refl, refl))

  -- The votes are as they were, or the poll that was found was the caller's, its deletion went
  -- through, and nothing but it has been done to the polls.
  abbrev pub PollFirst : ObjectId → Result Poll → World s → World s → Type 0
  PollFirst owner found w w' =
      (w'.votes ≡ w.votes)
      ⊎ ((p : Poll) × (found ≡ ok p)
          × (p.owner_id ≡ owner)
          × ((s.polls.delete p.id owner w.polls).0 ≡ ok tt)
          × (w'.polls ≡ (s.polls.delete p.id owner w.polls).1)
          × (w'.votes ≡ (s.votes.delete_by_poll p.id w.votes).1))

  delete_votes-PollFirst :
      (owner : ObjectId) (p : Poll) (gone : Result (Unit {0})) (w : World s)
      → p.owner_id ≡ owner
      → (s.polls.delete p.id owner w.polls).0 ≡ gone
      → PollFirst owner
          (ok p)
          w
          (delete_votes s p gone (record w { polls = (s.polls.delete p.id owner w.polls).1 })).1
  unfolding delete_votes
  delete_votes-PollFirst owner p (err e) w own h = inl refl
  delete_votes-PollFirst owner p (ok _) w own h =
      let (votes, polls) = delete_counters_keeps p (s.votes.delete_by_poll p.id w.votes).0 _ in
      inr (p, refl, own, h, polls, votes)

  -- `Delete` deletes the poll before its votes: whatever it returns, the votes are as they were, or
  -- the poll that the lookup found is the caller's, the store has deleted it without an error, and then
  -- its votes were deleted and nothing else happened to the polls and the votes.
  pub delete-PollFirst :
      (owner : ObjectId) (poll_id : Str) (w : World s)
      → PollFirst owner
          (s.polls.find_by_id poll_id w.polls).0
          (record w { polls = (s.polls.find_by_id poll_id w.polls).1 })
          (delete s owner poll_id w).1
  unfolding delete get_owned delete_owned
  delete-PollFirst owner poll_id w = from (owned_by owner found) refl
    where
      found : Result Poll
      found = (s.polls.find_by_id poll_id w.polls).0

      w₁ : World s
      w₁ = record w { polls = (s.polls.find_by_id poll_id w.polls).1 }

      from :
          (r : Result Poll)
          → owned_by owner found ≡ r
          → PollFirst owner found w₁ (delete_owned s owner r w₁).1
      from (err e) h = inl refl
      from (ok p) h =
          let (is, own) = owned_by_ok owner found p h in
          subst (λ f. PollFirst owner f w₁ (delete_owned s owner (ok p) w₁).1) (sym is)
            (delete_votes-PollFirst owner p _ w₁ own refl)
