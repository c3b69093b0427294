-- ===== src/Services/Results.antt =====
-- `ResultService`: backend/internal/services/result_service.go. A poll's standing is read from the
-- live counters where they are warm, and rebuilt from the votes where they are not.
pub mod Tally
pub mod Standing
pub mod Reading
pub mod Recording
use live_polling.Prelude.{
  Bool, true, false, Option, none, some, List, [], ◌∷◌, ◌++◌, Str, Int64, add64, Dict, insert,
  contains, if◌then◌else◌,
}
use live_polling.Apperr.{Attempt, done, failed, Result, ok, err}
use live_polling.Models.{Poll, PollOption, PollStatus, OptionCount, Time, effective_status}
use live_polling.Services.Stores.{count_or_zero}
use live_polling.Services.World.{Stores, World, Action}

-- `services.OptionResult`
pub record OptionResult : Type 0 where
  pub option_id : Str
  pub text : Str
  pub count : Int64

-- `services.Results`
pub record Results : Type 0 where
  pub poll_id : Str
  pub options : List OptionResult
  pub total_votes : Int64
  pub status : PollStatus
  pub computed_at : Time

-- The first loop of `Rebuild`: every option starts at zero.
unfoldable pub seed : List PollOption → Dict Int64 → Dict Int64
seed [] m = m
seed (o ∷ opts) m = seed opts (insert o.id 0 m)

-- Its second loop: a row of a known option is taken over.
unfoldable pub take_rows : List OptionCount → Dict Int64 → Dict Int64
take_rows [] m = m
take_rows (r ∷ rows) m =
    take_rows rows (if contains r.option_id m then insert r.option_id r.count m else m)

-- The loop of `assemble`, on the rows and the total so far.
unfoldable pub gather :
    List PollOption → Dict Int64 → List OptionResult → Int64 → List OptionResult × Int64
gather [] m rows total = (rows, total)
gather (o ∷ opts) m rows total =
    let n = count_or_zero o.id m in
    gather opts m (rows ++ record { option_id = o.id; text = o.text; count = n } ∷ [])
      (add64 total n)

module _ (s : Stores) where
  -- `ResultService.assemble`
  unfoldable pub assemble : Poll → Dict Int64 → World s → Results × World s
  unfolding gather
  assemble poll by_option w =
      let (rows, total) = gather poll.options by_option [] 0 in
      let (now, clock) = s.clock.now w.clock in
      (
        record {
          poll_id = s.ids.hex poll.id;
          options = rows;
          total_votes = total;
          status = effective_status poll now;
          computed_at = now;
        },
        record w { clock = clock },
      )

  -- The write of the counters in `Rebuild`: its failure is only logged.
  unfoldable pub refresh : Poll → Dict Int64 → World s → World s
  refresh poll by_option w =
      if s.has_counters
      then record w {
        counters = (s.counters.replace_results (s.ids.hex poll.id) by_option w.counters).1;
      }
      else w

  -- What `Rebuild` does with the rows that the votes give.
  unfoldable pub rebuild_from : Poll → Result (List OptionCount) → Action s Results
  unfolding seed take_rows refresh assemble
  rebuild_from poll (err e) w = (err e, w)
  rebuild_from poll (ok rows) w =
      let by_option = take_rows rows (seed poll.options []) in
      let (r, w') = assemble poll by_option (refresh poll by_option w) in (ok r, w')

  -- `ResultService.Rebuild`
  unfoldable pub rebuild : Poll → Action s Results
  unfolding rebuild_from
  rebuild poll w =
      let (rows, votes) = s.votes.counts_by_poll poll.id w.votes in
      rebuild_from poll rows (record w { votes = votes })

  -- What `ForPoll` does with the answer of the counters.
  unfoldable pub for_poll_from : Poll → Attempt (Option (Dict Int64)) → Action s Results
  unfolding rebuild assemble
  for_poll_from poll (failed _) w = rebuild poll w
  for_poll_from poll (done none) w = rebuild poll w
  for_poll_from poll (done (some counts)) w = let (r, w') = assemble poll counts w in (ok r, w')

  -- `ResultService.ForPoll`
  unfoldable pub for_poll : Poll → Action s Results
  unfolding for_poll_from rebuild
  for_poll poll w =
      let (answer, counters) = s.counters.results (s.ids.hex poll.id) w.counters in
      if s.has_counters
      then for_poll_from poll answer (record w { counters = counters })
      else rebuild poll w

  -- What `RecordVote` does with the answer of the increment.
  unfoldable pub record_vote_from : Poll → Attempt Bool → World s → World s
  unfolding rebuild
  record_vote_from poll (failed _) w = w
  record_vote_from poll (done true) w = w
  record_vote_from poll (done false) w = (rebuild poll w).1

  -- `ResultService.RecordVote`
  unfoldable pub record_vote : Poll → Str → World s → World s
  unfolding record_vote_from
  record_vote poll option_id w =
      let (answer, counters) =
        s.counters.increment_option (s.ids.hex poll.id) option_id w.counters in
      if s.has_counters then record_vote_from poll answer (record w { counters = counters }) else w

  -- `ResultService.DeleteResults`
  unfoldable pub delete_results : Str → World s → Attempt (Unit {0}) × World s
  delete_results poll_id w =
      let (answer, counters) = s.counters.delete_results poll_id w.counters in
      if s.has_counters then (answer, record w { counters = counters }) else (done tt, w)
