-- ===== src/Router/Guards.antt =====
-- What the middleware keeps from the handlers (backend/internal/router/router.go).
use live_polling.Prelude.{◌≡◌, refl, ap, ◌∙◌, Bool, true, false, List, ◌∷◌, ◌++◌, Str}
use live_polling.Apperr.{Code}
use live_polling.Http.{
  Method, Request, Context, blank, Answer, fail, Stage, next, Handler, proceed, chain,
}
use live_polling.Middleware.{
  request_id, security_headers, cors, preflight, changes_state, bare_delete, is_json, require_json,
}
use live_polling.Handlers.{Payload}
use live_polling.Router.{
  Backend, State, Call, method_of, Layer, global, json_required, route, serve,
}

abbrev pub is_options : Method → Bool
is_options Method.options = true
is_options _ = false

preflight_next :
    {W A : Type 0} (m : Method) (c : Context) (w : W)
    → is_options m ≡ false
    → preflight {A = A} m c w ≡ next c w
unfolding preflight
preflight_next Method.options c w h = cc
preflight_next _ c w h = refl

-- A route that the table has.
abbrev pub is_routed : Call → Bool
is_routed (Call.unrouted m) = false
is_routed _ = true

module _ (b : Backend) where
  abbrev Run : Type 0
  Run = Answer Payload × Context × State b

  -- The global middleware lets every request but a preflight through, and changes no state.
  pub global_next :
      (fresh : Str) (layers : List (Layer b)) (handler : Handler (State b) Payload) (r : Request)
      (c : Context) (w : State b)
      → is_options r.method ≡ false
      → (c' : Context) × (chain (global b fresh ++ layers) handler r c w
          ≡ chain layers handler r c' w)
  unfolding chain proceed request_id security_headers cors
  global_next fresh layers handler r c w h = (
    _,
    ap (λ (st : Stage (State b) (Answer Payload)). proceed st (λ c w. chain layers handler r c w))
        (preflight_next r.method _ w h),
  )

  -- A request whose content type is not JSON, as far as it matters for its method.
  abbrev pub IsForeign : Method → Request → Type 0
  IsForeign m r =
      (changes_state m ≡ true)
      × (bare_delete m r.content_length ≡ false)
      × (is_json b.equal_fold (b.parse_media_type r.content_type) ≡ false)

  abbrev pub not_json : Answer Payload
  not_json = fail Code.validation "This endpoint expects a JSON request body."

  foreign_halts :
      (layers : List (Layer b)) (handler : Handler (State b) Payload) (r : Request) (c : Context)
      (w : State b)
      → IsForeign r.method r
      → chain (json_required b ∷ layers) handler r c w ≡ (not_json, c, w)
  unfolding chain proceed require_json
  foreign_halts layers handler r c w (changes, bare, foreign) = rw (changes, bare, foreign) refl

  -- Every route of the table asks for JSON before anything else.
  first_layer :
      (call : Call)
      → is_routed call ≡ true
      → (layers : List (Layer b)) × ((route b call).0 ≡ json_required b ∷ layers)
  unfolding route
  first_layer (Call.unrouted m) h = cc
  first_layer (Call.register body) h = (_, refl)
  first_layer (Call.login body) h = (_, refl)
  first_layer Call.logout h = (_, refl)
  first_layer Call.me h = (_, refl)
  first_layer Call.list_polls h = (_, refl)
  first_layer (Call.get_poll i) h = (_, refl)
  first_layer (Call.results i) h = (_, refl)
  first_layer (Call.manage i) h = (_, refl)
  first_layer (Call.delete_poll i) h = (_, refl)
  first_layer (Call.close_poll i) h = (_, refl)
  first_layer (Call.vote i body) h = (_, refl)
  first_layer (Call.create_poll body) h = (_, refl)
  first_layer (Call.update_poll i body) h = (_, refl)

  changing : (m : Method) → changes_state m ≡ true → is_options m ≡ false
  changing Method.options h = cc
  changing Method.get h = refl
  changing Method.post h = refl
  changing Method.put h = refl
  changing Method.patch h = refl
  changing Method.delete h = refl
  changing (Method.other t) h = refl

  -- A page of another site cannot change anything with a form: a POST, PATCH or DELETE to any route
  -- that does not declare a JSON body is refused as invalid, and no account, poll, vote, counter of
  -- the limiter or voter changes; a DELETE that is known to have no body is the exception.
  pub serve_foreign :
      (fresh : Str) (call : Call) (r : Request) (w : State b)
      → is_routed call ≡ true
      → IsForeign (method_of call) r
      → ((serve b fresh call r w).0 ≡ not_json) × ((serve b fresh call r w).2 ≡ w)
  unfolding serve
  serve_foreign fresh call r w routed foreign =
      let r' = record r { method = method_of call } in
      let (layers, is) = first_layer call routed in
      let (c, through) =
        global_next fresh (route b call).0 (route b call).1 r' blank w
          (changing (method_of call) foreign.0) in
      let all : serve b fresh call r w ≡ (not_json, c, w) =
        through
        ∙ ap (λ ls. chain ls (route b call).1 r' c w) is
        ∙ foreign_halts layers (route b call).1 r' c w foreign in
      (ap (λ o. o.0) all, ap (λ o. o.2) all)
