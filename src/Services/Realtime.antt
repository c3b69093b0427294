-- ===== src/Services/Realtime.antt =====
-- `RealtimeService` and `ResultBroadcaster`: backend/internal/services/realtime_service.go.
pub mod Laws
use live_polling.Prelude.{Option, none, some, List, [], ◌∷◌, map, Str, str_eq, if◌then◌else◌}
use live_polling.Apperr.{Result, ok, err, Attempt, done, failed}
use live_polling.Models.{Poll, OptionCount, status_text}
use live_polling.Events.{
  PollResultsUpdated, Message, Codec, type_poll_results_updated, encode, decode,
}
use live_polling.Services.World.{Stores, World}
use live_polling.Services.Results.{Results, for_poll}

-- `toEventCounts`
pub to_event_counts : Results → List OptionCount
to_event_counts r = map (λ o. record { option_id = o.option_id; count = o.count }) r.options

-- The event that `PublishResults` sends.
unfoldable pub event_of : Results → PollResultsUpdated
unfolding to_event_counts
event_of r = record {
  kind = type_poll_results_updated;
  poll_id = r.poll_id;
  results = to_event_counts r;
  total_votes = r.total_votes;
  status = status_text r.status;
  timestamp = r.computed_at;
}

module _ (s : Stores) where
  -- What `PublishResults` does with the encoded event: a failed publication is only logged.
  unfoldable pub publish_payload : Str → Attempt Str → World s → World s
  publish_payload poll_id (failed _) w = w
  publish_payload poll_id (done payload) w = record w {
    bus = (s.bus.publish_poll_update poll_id payload w.bus).1;
  }

  -- `RealtimeService.PublishResults`, and `ResultBroadcaster.PublishResults`, which passes on to it.
  unfoldable pub publish_results : Results → World s → World s
  unfolding publish_payload event_of
  publish_results r w =
      if s.has_publisher then publish_payload r.poll_id (encode s.codec (event_of r)) w else w

  -- What `AnnouncePoll` does with the standing.
  unfoldable pub announce : Result Results × World s → World s
  unfolding publish_results
  announce (err e, w) = w
  announce (ok r, w) = publish_results r w

  -- `ResultBroadcaster.AnnouncePoll`
  unfoldable pub announce_poll : Poll → World s → World s
  unfolding announce
  announce_poll poll w = announce (for_poll s poll w)

-- One round of the goroutine of `Subscribe`: the event that it forwards, if any.
accepted : Str → Attempt PollResultsUpdated → Option PollResultsUpdated
accepted poll_id (failed _) = none
accepted poll_id (done event) = if str_eq event.poll_id poll_id then some event else none

unfoldable pub forward : Codec → Message → Option PollResultsUpdated
unfolding accepted
forward c m = accepted m.poll_id (decode c m.payload)

push : Option PollResultsUpdated → List PollResultsUpdated → List PollResultsUpdated
push none es = es
push (some e) es = e ∷ es

-- The goroutine of `Subscribe`: the events that leave it while its context lives.
unfoldable pub subscribe : Codec → List Message → List PollResultsUpdated
unfolding forward push
subscribe c [] = []
subscribe c (m ∷ ms) = push (forward c m) (subscribe c ms)
