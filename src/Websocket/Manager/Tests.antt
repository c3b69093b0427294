-- ===== src/Websocket/Manager/Tests.antt =====
-- The way of a standing to the hub at an example.
use live_polling.Prelude.{
  Str, str_eq, subst, false, ◌≡◌, refl, List, [], ◌∷◌, ◌++◌, length, codes, map,
}
use live_polling.Apperr.{done-injective}
use live_polling.Models.{PollStatus}
use live_polling.Events.{type_poll_results_updated, encode}
use live_polling.Events.Tests.{plain_codec}
use live_polling.Services.Results.{Results}
use live_polling.Services.Realtime.{subscribe, event_of}
use live_polling.Services.Realtime.Laws.{is_event_of}
use live_polling.Websocket.Manager.{pump}
use live_polling.Websocket.Manager.Relay.{
  Traffic, standing, noise, message_of, standings, pump-subscribe,
}

abbrev lunch : Results
lunch = record {
  poll_id = codes "p7";
  options = [];
  total_votes = 0;
  status = PollStatus.active;
  computed_at = 12;
}

abbrev payload : Str
payload =
    0 ∷ 12 ∷ length type_poll_results_updated ∷ 2 ∷ type_poll_results_updated ++ codes "p7active"

-- No JSON, the standing, and the same bytes on the channel of another poll.
abbrev traffic : List Traffic
traffic =
    noise (record { poll_id = codes "p7"; payload = [] })
    ∷ standing lunch payload
    ∷ noise (record { poll_id = codes "p8"; payload = payload })
    ∷ []

pump-subscribe_example :
    pump plain_codec (subscribe plain_codec (map message_of traffic)) ≡ standings traffic
unfolding event_of encode str_eq
pump-subscribe_example = pump-subscribe plain_codec traffic (
  (λ e h. cc),
  (
    (refl, refl),
    ((λ e h. subst (λ x. is_event_of (codes "p8") x ≡ false) (done-injective h) refl), tt),
  ),
)
