-- ===== src/Websocket/Manager.antt =====
-- `Manager`, which feeds the hub with the events of the subscription:
-- backend/internal/websocket/manager.go.
pub mod Relay
mod Tests
use live_polling.Prelude.{List, [], ◌∷◌, Str}
use live_polling.Apperr.{Attempt, done, failed}
use live_polling.Events.{PollResultsUpdated, Codec, encode}
use live_polling.Websocket.Hub.{Event}

-- One round of the pump: an event that cannot be encoded is only logged.
announced : Str → Attempt Str → List Event → List Event
announced poll_id (failed c) rest = rest
announced poll_id (done payload) rest = Event.announce poll_id payload ∷ rest

-- The pump of `Run`: the calls of `Broadcast` that it makes for the events that leave the
-- subscription.
unfoldable pub pump : Codec → List PollResultsUpdated → List Event
unfolding announced
pump c [] = []
pump c (event ∷ events) = announced event.poll_id (encode c event) (pump c events)
