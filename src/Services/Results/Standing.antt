-- ===== src/Services/Results/Standing.antt =====
-- The standing that `ForPoll` reports is the tally of the votes, whichever store answered
-- (backend/internal/services/result_service.go).
use live_polling.Prelude.{
  ℕ, ◌<◌, ◌^◌, ◌≡◌, refl, ap, subst, ◌∙◌, ◌⊎◌, inl, inr, Option, none, some, List, [], ◌∷◌, map,
  arith, Str, Int64, int64, Dict, Distinct, All, if_elim,
}
use Prim.Native.Nat.add
use live_polling.Apperr.{Result, ok, err, ok-injective}
use live_polling.Models.{Poll, PollOption, Vote, OptionCount, effective_status}
use live_polling.Services.Stores.{count_or_zero, tally, IsTally, Holds}
use live_polling.Services.World.{Stores, World}
use live_polling.Services.Results.{
  Results, seed, take_rows, assemble, refresh, rebuild_from, rebuild,
}
use live_polling.Services.Results.Tally.{
  Fits, seed-Fits, take_rows-Fits, seed-Distinct, take_rows-Distinct, rebuilt_count, row, total_of,
  gather_lem,
}

-- The counts of a poll's options in a list of votes.
abbrev pub votes_for : Poll → List Vote → Str → ℕ
votes_for p vs o = tally p.id o vs

-- Counters that are cold, or that give each option of the poll its number of votes.
abbrev pub Agrees : Poll → List Vote → Option (Dict Int64) → Type 0
Agrees p vs none = Unit
Agrees p vs (some d) = All (λ o. count_or_zero o.id d ≡ int64 (votes_for p vs o.id)) p.options

-- A result that is the poll's standing in a list of votes: every option in the declared order with
-- its number of votes, their sum, and the status that holds when it is computed.
pub record IsStanding (s : Stores) (p : Poll) (vs : List Vote) (r : Results) : Type 0 where
  pub poll_id : r.poll_id ≡ s.ids.hex p.id
  pub options : r.options ≡ map (row (votes_for p vs)) p.options
  pub total_votes : r.total_votes ≡ int64 (total_of (votes_for p vs) p.options)
  pub status : r.status ≡ effective_status p r.computed_at

module _ (s : Stores) (p : Poll) where
  -- What the votes collection and this poll's counters hold.
  abbrev pub stored : World s → List Vote
  stored w = s.votes.votes w.votes

  abbrev pub counters_of : World s → Option (Dict Int64)
  counters_of w = s.counters.standing w.counters (s.ids.hex p.id)

  refresh_votes : (m : Dict Int64) (w : World s) → (refresh s p m w).votes ≡ w.votes
  unfolding refresh
  refresh_votes m w = ground arith

  pub assemble_keeps :
      (m : Dict Int64) (w : World s)
      → ((assemble s p m w).1.votes ≡ w.votes) × ((assemble s p m w).1.counters ≡ w.counters)
  unfolding assemble
  assemble_keeps m w = (refl, refl)

  pub assemble-IsStanding :
      (vs : List Vote) (m : Dict Int64) (w : World s)
      → All (λ o. count_or_zero o.id m ≡ int64 (votes_for p vs o.id)) p.options
      → IsStanding s p vs (assemble s p m w).0
  unfolding assemble
  assemble-IsStanding vs m w h =
      let e = gather_lem (votes_for p vs) p.options m [] 0 h in
      record {
        poll_id = refl;
        options = ap (λ q. q.0) e;
        total_votes =
            ap (λ q. q.1) e ∙ ap (λ n. int64 n) (add.zero (total_of (votes_for p vs) p.options));
        status = refl;
      }

  Holds-Agrees :
      (vs : List Vote) (m : Dict Int64) (c : Option (Dict Int64))
      → All (λ o. count_or_zero o.id m ≡ int64 (votes_for p vs o.id)) p.options
      → Holds m c
      → Agrees p vs c
  Holds-Agrees vs m none h held = tt
  Holds-Agrees vs m (some d) h held = each p.options h
    where
      each :
          (os : List PollOption)
          → All (λ o. count_or_zero o.id m ≡ int64 (votes_for p vs o.id)) os
          → All (λ o. count_or_zero o.id d ≡ int64 (votes_for p vs o.id)) os
      each [] g = tt
      each (o ∷ os) g = (ground (arith, held o.id), each os g.1)

  -- A refresh leaves counters that agree, or the counters as they were.
  refresh-Agrees :
      (vs : List Vote) (m : Dict Int64) (w : World s)
      → All (λ o. count_or_zero o.id m ≡ int64 (votes_for p vs o.id)) p.options
      → Fits m
      → Distinct m
      → Agrees p vs (counters_of (refresh s p m w))
        ⊎ (counters_of (refresh s p m w) ≡ counters_of w)
  unfolding refresh
  refresh-Agrees vs m w h fits once =
      if_elim (λ w'. Agrees p vs (counters_of w') ⊎ (counters_of w' ≡ counters_of w)) s.has_counters
        _ _
        (λ _. elim (s.counters.replace_lem (s.ids.hex p.id) m w.counters fits once) [
          | inl held ↦ inl (Holds-Agrees vs m _ h held)
          | inr (x, _, same) ↦ inr same
        ])
        (λ _. inr refl)

  -- What a run that ends in a result or an error has done: a result is the standing, the votes are
  -- untouched, and the counters agree now or are as they were.
  pub record Reports (vs : List Vote) (w : World s) (q : Result Results × World s) : Type 0 where
    pub correct : (r : Results) → q.0 ≡ ok r → IsStanding s p vs r
    pub kept : stored q.1 ≡ stored w
    pub cached : Agrees p vs (counters_of q.1) ⊎ (counters_of q.1 ≡ counters_of w)

  IsTally-bounds :
      (vs : List Vote) (rows : List OptionCount)
      → All (λ r. r.count ≡ int64 (votes_for p vs r.option_id)) rows
      → All (λ r. r.count < 2 ^ 64) rows
  IsTally-bounds vs [] h = tt
  IsTally-bounds vs (r ∷ rows) h = (rw h.0 (omega arith), IsTally-bounds vs rows h.1)

  rebuild_from-Reports :
      (vs : List Vote) (rows : Result (List OptionCount)) (w : World s)
      → ((rs : List OptionCount) → rows ≡ ok rs → IsTally p.id vs rs)
      → Reports vs w (rebuild_from s p rows w)
  unfolding rebuild_from
  rebuild_from-Reports vs (err e) w h = record {
    correct = λ r eq. cc;
    kept = refl;
    cached = inr refl;
  }
  rebuild_from-Reports vs (ok rows) w h = record {
    correct = λ r eq.
        subst (IsStanding s p vs) (ok-injective eq)
          (assemble-IsStanding vs m (refresh s p m w) right);
    kept = ap s.votes.votes (refresh_votes m w);
    cached =
        refresh-Agrees vs m w right
          (take_rows-Fits rows _ (IsTally-bounds vs rows t.0) (seed-Fits p.options [] tt))
          (take_rows-Distinct rows _ (seed-Distinct p.options [] tt));
  }
    where
      m : Dict Int64
      m = take_rows rows (seed p.options [])

      t : IsTally p.id vs rows
      t = h rows refl

      right : All (λ o. count_or_zero o.id m ≡ int64 (votes_for p vs o.id)) p.options
      right = rebuilt_count (votes_for p vs) p.options rows t.0 t.1

  pub rebuild-Reports : (w : World s) → Reports (stored w) w (rebuild s p w)
  unfolding rebuild
  rebuild-Reports w = record {
    correct = from.correct;
    kept = from.kept ∙ s.votes.counts_reads p.id w.votes;
    cached = from.cached;
  }
    where
      from :
          Reports
            (stored w)
            (record w { votes = (s.votes.counts_by_poll p.id w.votes).1 })
            (rebuild s p w)
      from =
          rebuild_from-Reports (stored w) (s.votes.counts_by_poll p.id w.votes).0 _
            (λ rs e. s.votes.counts_tally p.id w.votes rs e)
