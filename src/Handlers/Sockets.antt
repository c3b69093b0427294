-- ===== src/Handlers/Sockets.antt =====
-- `WebSocketHandler`: backend/internal/handlers/websocket_handler.go. Whether gorilla's Upgrade goes
-- through is given, and the handler runs by itself between the hub's events.
pub mod Origins
pub mod Opening
mod Tests
use live_polling.Prelude.{
  Bool, true, Option, none, some, List, [], map, Str, str_eq, any, is_empty, if◌then◌else◌,
}
use live_polling.Apperr.{Code, Result, ok, err, wrap, domain, Attempt, done, failed}
use live_polling.Models.{Poll, status_text}
use live_polling.Events.{PollResultsUpdated, encode}
use live_polling.Http.{Answer, fail_with}
use live_polling.Middleware.{allow_list, trim_slashes}
use live_polling.Services.World.{Stores, World}
use live_polling.Services.Results.{OptionResult, Results, for_poll}
use live_polling.Websocket.Hub.{ClientRef, Hub, Event, act, send}
use live_polling.Handlers.{Payload}

-- `CheckOrigin`, on the origins that the handler was made with.
unfoldable pub check_origin : List Str → Str → Bool
check_origin allowed_origins header =
    let origin = trim_slashes header in
    if is_empty origin then true else any (str_eq origin) (allow_list allowed_origins)

-- What a request for a socket comes to: an answer, nothing more where the upgrade has failed, a
-- connection that is closed at once since the hub has stopped, or a client of the hub.
pub data Socket : Type 0 where
  refused : Answer Payload → Socket
  not_upgraded closed : Socket
  live : ClientRef → Socket

-- The new client, where its first message has been queued; `Send` may panic, as it does on a client
-- that the hub has closed.
greeted : ClientRef → Option (Bool × Hub) → Option (Socket × Hub)
greeted c none = none
greeted c (some (sent, h)) = some (live c, h)

-- `Register` and the first `Send`.
registered : ClientRef → Str → Option Hub → Option (Socket × Hub)
unfolding greeted
registered c payload none = none
registered c payload (some h) = greeted c (send c payload h)

-- `Subscribe` once the connection is upgraded.
unfoldable pub joined : Str → Str → Hub → Option (Socket × Hub)
unfolding registered
joined poll_id payload h =
    let entered = act (Event.join poll_id) h in
    if h.stopped then some (closed, h) else registered h.next payload entered

-- The event of `snapshot`: it leaves the type to `Encode`.
unfoldable pub snapshot_event : Results → PollResultsUpdated
snapshot_event r = record {
  kind = [];
  poll_id = r.poll_id;
  results =
      map (λ (o : OptionResult). record { option_id = o.option_id; count = o.count }) r.options;
  total_votes = r.total_votes;
  status = status_text r.status;
  timestamp = r.computed_at;
}

module _ (s : Stores) where
  encoded : Attempt Str → World s → Result Str × World s
  encoded (failed c) w = (err (wrap Code.internal "Could not load the results." c), w)
  encoded (done payload) w = (ok payload, w)

  standing : Result Results × World s → Result Str × World s
  unfolding encoded
  standing (err e, w) = (err e, w)
  standing (ok results, w) = encoded (encode s.codec (snapshot_event results)) w

  -- `WebSocketHandler.snapshot`
  unfoldable pub snapshot : Poll → World s → Result Str × World s
  unfolding standing
  snapshot poll w = standing (for_poll s poll w)

  abbrev Outcome : Type 0
  Outcome = Option (Socket × Hub) × World s

  -- `Subscribe` once the snapshot is taken.
  ready : Poll → Bool → Hub → Result Str × World s → Outcome
  ready poll upgraded h (err e, w) = (some (refused (fail_with (domain e)), h), w)
  ready poll upgraded h (ok payload, w) =
      (if upgraded then joined (s.ids.hex poll.id) payload h else some (not_upgraded, h), w)

  found : Bool → Hub → Result Poll → World s → Outcome
  unfolding ready
  found upgraded h (err e) w = (some (refused (fail_with (domain e)), h), w)
  found upgraded h (ok poll) w = ready poll upgraded h (snapshot poll w)

  -- `WebSocketHandler.Subscribe`
  unfoldable pub subscribe : Str → Bool → Hub → World s → Outcome
  unfolding found
  subscribe poll_id upgraded h w =
      let (poll, polls) = s.polls.find_by_id poll_id w.polls in
      found upgraded h poll (record w { polls = polls })
