-- ===== src/Handlers/Sockets/Tests.antt =====
-- Sockets at examples.
use live_polling.Prelude.{
  ◌≡◌, refl, ◌↔◌, ◌⊎◌, true, some, [], ◌∷◌, ◌++◌, length, Str, str_eq, codes, is_empty,
}
use live_polling.Apperr.{done, ok}
use live_polling.Models.{Poll, PollStatus, effective_status}
use live_polling.Redis.Counters.{results}
use live_polling.Repositories.Votes.{counts_by_poll}
use live_polling.Http.{blank}
use live_polling.Middleware.{allow_list, trim_slashes, cors_headers}
use live_polling.Events.{type_poll_results_updated, encode}
use live_polling.Services.World.{World}
use live_polling.Services.Results.{Results, for_poll}
use live_polling.Services.Realtime.{event_of}
use live_polling.Services.Sample.{site, morning, lunch}
use live_polling.Websocket.Hub.{Hub, new_hub}
use live_polling.Handlers.Sockets.{live, check_origin, subscribe}
use live_polling.Handlers.Sockets.Origins.{header_of, check_origin-cors_headers}
use live_polling.Handlers.Sockets.Opening.{IsWelcomed, subscribe-IsWelcomed}

abbrev page : Str
page = codes "https://a.org"

check_origin-cors_headers_example : (check_origin (page ∷ []) page ≡ true) ↔ (
    (is_empty (trim_slashes page) ≡ true)
    ⊎ (header_of "Access-Control-Allow-Origin"
          (cors_headers (allow_list (page ∷ [])) (trim_slashes page) blank).headers
        ≡ some (trim_slashes page)))
check_origin-cors_headers_example = check_origin-cors_headers (page ∷ []) page

-- A poll that has lost its options, since the text of an event with rows is not needed here.
abbrev bare : Poll
bare = record lunch { options = [] }

abbrev noon : World site
noon = record morning { polls = bare ∷ [] }

abbrev standing : Results
standing = record {
  poll_id = 7 ∷ [];
  options = [];
  total_votes = 0;
  status = PollStatus.active;
  computed_at = 30;
}

abbrev payload : Str
payload =
    0 ∷ 30 ∷ length type_poll_results_updated ∷ 1 ∷ type_poll_results_updated ++ 7 ∷ codes "active"

bare-standing : (for_poll site bare noon).0 ≡ ok standing
unfolding for_poll results counts_by_poll effective_status
bare-standing = refl

bare-payload : encode site.codec (event_of standing) ≡ done payload
unfolding encode event_of
bare-payload = refl

subscribe-IsWelcomed_example :
    (h : Hub) × ((subscribe site (7 ∷ []) true new_hub noon).0 ≡ some (live 0, h))
    × IsWelcomed (7 ∷ []) payload 0 h
unfolding str_eq
subscribe-IsWelcomed_example =
    subscribe-IsWelcomed site (7 ∷ []) new_hub noon bare standing payload refl refl bare-standing
      bare-payload
