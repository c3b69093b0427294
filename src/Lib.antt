-- ===== src/Lib.antt =====
-- Verification of the live-polling backend (backend/, in Go).
--
-- A creator makes a poll, anyone with the link votes once, and every viewer sees the standing move.
-- A vote goes to the votes collection of MongoDB, which refuses a second vote of the same voter, and
-- then into the poll's live counters in Redis, which only count while they are warm; the standing is
-- read from the counters, or rebuilt from the votes where they are cold, and is published on the
-- poll's channel; each instance decodes it and its hub fans it out to the connected browsers.
--
-- Files, and what they model:
--   Models            backend/internal/models: polls, votes, and the rules of a poll.
--   Apperr            backend/internal/apperr and response: domain errors and their HTTP replies.
--   Strconv           FormatInt and ParseInt, which the counters go through.
--   Validation        backend/internal/validation: CleanText and every rule.
--   Mongo             the driver's collection as an interface; Mongo.Memory is one in memory.
--   Repositories      backend/internal/repositories: VoteRepository, UserRepository and
--                     PollRepository over a collection; Polls is PollUpdate. Mongo.Editing has
--                     the operations that only the last one needs.
--   Redis             backend/internal/redis: the counters over the interface Redis.Server, whose
--                     round trips may lose a request or a reply, and the names of channels;
--                     Redis.Memory is a server in memory. Redis.Limiter is the fixed-window limiter,
--                     over the interface Redis.Timed, a server whose counters expire by its clock.
--   Events            backend/internal/events: the event and its Encode and Decode.
--   Services          backend/internal/services. Stores holds the interfaces that they take, with
--                     laws, which Repositories.Votes.Filling, Repositories.PollRepository.Filling
--                     and Redis.Counters.Filling fill; World is the state; Votes is VoteService,
--                     Polls PollService, Results ResultService, Realtime RealtimeService and
--                     ResultBroadcaster. Auth is AuthService, with a state of its own, over the
--                     interfaces of Accounts: the user store, which Repositories.Users.Filling
--                     fills, bcrypt and jwt.
--   Http              a request, an answer (backend/internal/response) and a chain of middleware.
--   Middleware        backend/internal/middleware: cookies, CORS, RequireJSON, the request id, the
--                     security headers, RateLimit and RequireAuth; Middleware.Voter is the voter cookie.
--   Config            backend/internal/config: Load and validate over an environment.
--   Handlers          backend/internal/handlers: the handlers of accounts, polls and votes on decoded
--                     bodies; Handlers.Accounts is auth_handler.go, Handlers.Responses dto.go and
--                     Handlers.Sockets the WebSocket handler.
--   Router            backend/internal/router: the route table under /api and its chains.
--   Websocket         backend/internal/websocket: the hub, its rooms and the clients' send queues, and
--                     the manager's pump.
--   Prelude           shared names, tests, lists, texts, maps and 64-bit integers.
--
-- A text is its runes, an int64 its bit pattern below 2^64, an instant and an identifier a number. A
-- service method is a step that returns a value or a domain error with the state after it. A failure
-- of a store is part of the state's future, so every theorem holds for every pattern of failures. The
-- hub's goroutine takes one event at a time, so that a run is a list of events; a call that would
-- panic gives no state. Every loop is structural recursion, and there is no fuel but the 20 digits of
-- FormatInt, which are enough for 64 bits.
--
-- Not modelled: the sockets and timers of the pumps, the health check, connecting to the stores,
-- contexts and time-outs other than as a failed call, logging and the recovery from panics, and
-- the frontend. gin's matching of paths and its reading of bodies, the body limit included, are
-- what a request starts from. bcrypt, jwt, HMAC, base64, randomness, Unicode's lower case and the
-- parsers of addresses, media types and durations are parameters. Requests that interleave between
-- two calls to the stores are not modelled either: a theorem on a service method is about a call
-- that runs by itself.
pub mod Prelude
pub mod Apperr
pub mod Models
pub mod Strconv
pub mod Validation
pub mod Mongo
pub mod Repositories
pub mod Redis
pub mod Events
pub mod Services
pub mod Http
pub mod Middleware
pub mod Config
pub mod Handlers
pub mod Router
pub mod Websocket
