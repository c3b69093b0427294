-- ===== src/Services/World.antt =====
-- The state that a request works on, and what a service method is: a step on it that returns a
-- value or a domain error. main.go gives every service the same stores.
use live_polling.Prelude.{ℕ, Bool, Str}
use live_polling.Apperr.{Attempt, Result}
use live_polling.Events.{Codec}
use live_polling.Services.Stores.{
  OptionIds, ObjectIds, Clock, PollStore, VoteStore, LiveCounters, EventPublisher,
}

-- The collaborators of the services, with Unicode's lower case and the parser of addresses. The
-- flags say whether `ResultService.counters`, `VoteService.broadcast`,
-- `RealtimeService.publisher`, `PollService.results` and `PollService.announcer` are set.
pub record Stores : Type 1 where
  pub ids : ObjectIds
  pub codec : Codec
  pub polls : PollStore ids
  pub votes : VoteStore
  pub counters : LiveCounters
  pub bus : EventPublisher
  pub clock : Clock
  pub option_ids : OptionIds
  pub lower : ℕ → ℕ
  pub parse_address : Str → Attempt Str
  pub has_counters : Bool
  pub has_broadcast : Bool
  pub has_publisher : Bool
  pub has_results : Bool
  pub has_announcer : Bool

pub record World (s : Stores) : Type 0 where
  pub polls : s.polls.Db
  pub votes : s.votes.Db
  pub counters : s.counters.Db
  pub bus : s.bus.Db
  pub clock : s.clock.Db
  pub random : s.option_ids.Db

abbrev pub Action : Stores → Type 0 → Type 0
Action s A = World s → Result A × World s
