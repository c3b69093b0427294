-- ===== src/Router/Tests.antt =====
-- Requests at examples.
use live_polling.Prelude.{◌≡◌, refl, true, Option, none, some, [], ◌∷◌, Str, codes, str_eq}
use live_polling.Apperr.{done}
use live_polling.Redis.Timed.Memory as redis
use live_polling.Middleware.Voter.Sample.{signing}
use live_polling.Services.Sample.{site, morning}
use live_polling.Services.Auth.Sample as accounts
use live_polling.Services.Auth.Sample.{ann}
use live_polling.Services.Auth.{session_claims, user_from_token}
use live_polling.Repositories.Users.{find_by_id}
use live_polling.Services.Polls as polls
use live_polling.Http.{Method, Request, SameSite}
use live_polling.Handlers.{Body, UpdatePollRequest, Field, nullable_time, update_input}
use live_polling.Handlers.Acting.{Answers}
use live_polling.Router.{Backend, State, Call, serve}
use live_polling.Router.Guards.{not_json, serve_foreign}
use live_polling.Router.Sessions.{IsRefusal, user_of, serve_refusal}
use live_polling.Router.Owners.{IsDeclared, serve_owner}

abbrev backend : Backend
backend = record {
  stores = site;
  accounts = accounts.site;
  limiter = redis.memory;
  has_limiter = true;
  signing = signing;
  jwt_secret = codes "secret";
  cookies = record { secure = true; domain = []; same_site = SameSite.none_mode };
  allowed_origins = codes "https://a.org" ∷ [];
  production = true;
  equal_fold = str_eq;
  parse_media_type = done;
}

abbrev state : State backend
state = record {
  site = morning;
  accounts = accounts.at (ann ∷ []) 2_000_000_000;
  hits = record { counters = λ k. none; time = 1_000; trips = [] };
  voters = 3;
}

abbrev token : Str
token = accounts.sealed (codes "secret") (session_claims accounts.site ann 1_500_000_000)

abbrev request : Str → Option Str → Request
request content_type cookie = record {
  method = Method.get;
  origin = codes "https://a.org";
  content_type = content_type;
  request_id = [];
  content_length = none;
  cookie = λ name. cookie;
  client_ip = codes "10.0.0.1";
}

abbrev json : Str
json = codes "application/json"

abbrev edit : UpdatePollRequest
edit = record { question = none; options = none; expires_at = nullable_time Field.null }

serve_foreign_example :
    let o =
      serve backend []
        (Call.close_poll (7 ∷ []))
        (request (codes "text/plain") (some token))
        state in
    (o.0 ≡ not_json backend) × (o.2 ≡ state)
unfolding str_eq
serve_foreign_example =
    serve_foreign backend [] (Call.close_poll (7 ∷ [])) (request (codes "text/plain") (some token))
      state refl (refl, refl, refl)

serve_refusal_example :
    IsRefusal backend state
      (serve backend [] (Call.delete_poll (7 ∷ [])) (request json (some (codes "x"))) state)
unfolding user_from_token str_eq
serve_refusal_example =
    serve_refusal backend [] (Call.delete_poll (7 ∷ [])) (request json (some (codes "x"))) state
      refl refl

signed_in : user_of backend (request json (some token)) state ≡ some ann
unfolding user_from_token str_eq find_by_id
signed_in = refl

serve_owner_example :
    let r = request json (some token) in
    (IsDeclared backend Method.patch r
      → let o = serve backend [] (Call.update_poll (7 ∷ []) (Body.decoded edit)) r state in
        Answers site (polls.update site 7 (7 ∷ []) (update_input edit) morning) o.0 o.2.site)
    × (IsDeclared backend Method.post r
        → let o = serve backend [] (Call.close_poll (7 ∷ [])) r state in
          Answers site (polls.close site 7 (7 ∷ []) morning) o.0 o.2.site)
    × (IsDeclared backend Method.delete r
        → let o = serve backend [] (Call.delete_poll (7 ∷ [])) r state in
          Answers site (polls.delete site 7 (7 ∷ []) morning) o.0 o.2.site)
serve_owner_example =
    serve_owner backend [] (7 ∷ []) edit (request json (some token)) state ann signed_in

declared : IsDeclared backend Method.patch (request json (some token))
unfolding str_eq
declared = refl
