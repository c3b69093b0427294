-- ===== src/Router.antt =====
-- The route table: backend/internal/router/router.go. gin has matched the path, and gives the handler
-- the poll's id from it; the body comes decoded.
pub mod Guards
pub mod Sessions
pub mod Owners
mod Tests
use live_polling.Prelude.{ℕ, Bool, true, false, List, [], ◌∷◌, ◌++◌, Str, codes}
use live_polling.Apperr.{Attempt}
use live_polling.Redis.Timed.{Timed}
use live_polling.Services.World.{Stores, World}
use live_polling.Services.Auth.{AuthService, World as Accounts, RegisterInput, LoginInput}
use live_polling.Http.{
  Method, Request, Context, blank, Envelope, Answer, next, Middleware, Handler, chain, on_part,
}
use live_polling.Middleware.{
  CookieSettings, request_id, security_headers, cors, require_json, rate_limit, require_auth,
}
use live_polling.Middleware.Voter.{Signing, voter_identity}
use live_polling.Handlers as handlers
use live_polling.Handlers.Accounts as accounts
use live_polling.Handlers.{Payload, Body, CreatePollRequest, UpdatePollRequest, VoteRequest}

-- What main.go puts together: the services, the limiter, which may be missing, the voter cookie's
-- libraries, and the settings.
pub record Backend : Type 1 where
  pub stores : Stores
  pub accounts : AuthService
  pub limiter : Timed
  pub has_limiter : Bool
  pub signing : Signing
  pub jwt_secret : Str
  pub cookies : CookieSettings
  pub allowed_origins : List Str
  pub production : Bool
  pub equal_fold : Str → Str → Bool
  pub parse_media_type : Str → Attempt Str

-- What they work on.
pub record State (b : Backend) : Type 0 where
  pub site : World b.stores
  pub accounts : Accounts b.accounts
  pub hits : b.limiter.Db
  pub voters : b.signing.Db

-- The routes under /api, and a request that none takes.
pub data Call : Type 0 where
  register : Body RegisterInput → Call
  login : Body LoginInput → Call
  logout me list_polls : Call
  get_poll results manage delete_poll close_poll : Str → Call
  vote : Str → Body VoteRequest → Call
  create_poll : Body CreatePollRequest → Call
  update_poll : Str → Body UpdatePollRequest → Call
  unrouted : Method → Call

abbrev pub method_of : Call → Method
method_of (Call.register body) = Method.post
method_of (Call.login body) = Method.post
method_of Call.logout = Method.post
method_of Call.me = Method.get
method_of Call.list_polls = Method.get
method_of (Call.get_poll i) = Method.get
method_of (Call.results i) = Method.get
method_of (Call.manage i) = Method.get
method_of (Call.delete_poll i) = Method.delete
method_of (Call.close_poll i) = Method.post
method_of (Call.vote i body) = Method.post
method_of (Call.create_poll body) = Method.post
method_of (Call.update_poll i body) = Method.patch
method_of (Call.unrouted m) = m

module _ (b : Backend) where
  abbrev pub Layer : Type 0
  Layer = Middleware (State b) Payload

  -- The limiter under a scope, with a window in milliseconds: it lets everything through where there
  -- is none.
  unfoldable pub limited : Str → ℕ → ℕ → Layer
  limited scope limit window r c w =
      let counted =
        on_part (λ (w : State b). w.hits) (λ d w. record w { hits = d })
          (rate_limit b.limiter scope limit window) r c w in
      elim b.has_limiter [ false ↦ next c w | true ↦ counted ]

  abbrev pub auth_limit : Layer
  auth_limit = limited (codes "auth") 20 900_000

  abbrev pub vote_limit : Layer
  vote_limit = limited (codes "vote") 60 60_000

  abbrev pub create_limit : Layer
  create_limit = limited (codes "create") 30 3_600_000

  unfoldable pub session_required : Layer
  session_required =
      on_part (λ (w : State b). w.accounts) (λ a w. record w { accounts = a })
        (require_auth b.accounts)

  abbrev pub with_voter : Layer
  with_voter =
      on_part (λ (w : State b). w.voters) (λ d w. record w { voters = d })
        (voter_identity b.signing b.jwt_secret b.cookies)

  abbrev pub json_required : Layer
  json_required = require_json b.equal_fold b.parse_media_type

  -- `engine.Use`, as far as it can answer a request or change its context; `fresh` is the request id
  -- that is drawn for this request.
  abbrev pub global : Str → List Layer
  global fresh = request_id fresh ∷ security_headers b.production ∷ cors b.allowed_origins ∷ []

  -- A handler on the polls and votes, and one on the accounts.
  abbrev pub Outcome : Type 0
  Outcome = Answer Payload × Context × State b

  abbrev pub on_site :
      (Context → World b.stores → Answer Payload × Context × World b.stores)
      → Handler (State b) Payload
  on_site handler r c w = let (a, c', site) = handler c w.site in (a, c', record w { site = site })

  abbrev pub on_accounts :
      (Context → Accounts b.accounts → Answer Payload × Context × Accounts b.accounts)
      → Handler (State b) Payload
  on_accounts handler r c w =
      let (a, c', accounts) = handler c w.accounts in (a, c', record w { accounts = accounts })

  abbrev pub not_found : Handler (State b) Payload
  not_found r c w = (record { status = 404; body = Envelope.no_body }, c, w)

  -- The route table: the middleware of a route and its handler.
  unfoldable pub route : Call → List Layer × Handler (State b) Payload
  route (Call.register body) =
      (json_required ∷ auth_limit ∷ [], on_accounts (accounts.register b.accounts b.cookies body))
  route (Call.login body) =
      (json_required ∷ auth_limit ∷ [], on_accounts (accounts.login b.accounts b.cookies body))
  route Call.logout = (json_required ∷ [], on_accounts (accounts.logout b.accounts b.cookies))
  route Call.me =
      (json_required ∷ session_required ∷ [], on_accounts (accounts.me b.accounts b.cookies))
  route (Call.get_poll i) = (json_required ∷ [], on_site (handlers.get b.stores i))
  route (Call.vote i body) =
      (json_required ∷ vote_limit ∷ with_voter ∷ [], on_site (handlers.vote b.stores i body))
  route (Call.results i) = (json_required ∷ with_voter ∷ [], on_site (handlers.results b.stores i))
  route (Call.create_poll body) = (
    json_required ∷ session_required ∷ create_limit ∷ [],
    on_site (handlers.create b.stores body),
  )
  route Call.list_polls = (json_required ∷ session_required ∷ [], on_site (handlers.list b.stores))
  route (Call.manage i) =
      (json_required ∷ session_required ∷ [], on_site (handlers.manage b.stores i))
  route (Call.update_poll i body) =
      (json_required ∷ session_required ∷ [], on_site (handlers.update b.stores i body))
  route (Call.delete_poll i) =
      (json_required ∷ session_required ∷ [], on_site (handlers.delete b.stores i))
  route (Call.close_poll i) =
      (json_required ∷ session_required ∷ [], on_site (handlers.close b.stores i))
  route (Call.unrouted m) = ([], not_found)

  -- A request for a route, from the start of the chain.
  unfoldable pub serve : Str → Call → Request → State b → Outcome
  unfolding route
  serve fresh call r w =
      let (layers, handler) = route call in
      chain (global fresh ++ layers) handler (record r { method = method_of call }) blank w
