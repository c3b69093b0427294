-- ===== src/Router/Sessions.antt =====
-- Who acts on a poll (backend/internal/router/router.go, backend/internal/middleware/auth.go).
use live_polling.Prelude.{
  ◌≡◌, refl, sym, ap, subst, ◌∙◌, ◌⊎◌, inl, inr, Bool, true, false, not, ◌||◌, Option, none, some,
  List, ◌∷◌, Str, is_empty, Bool-cases, if◌then◌else◌,
}
use live_polling.Apperr.{Code, ApiError, Result, ok, err}
use live_polling.Models.{User}
use live_polling.Services.Auth.{AuthService, World as Accounts, user_from_token}
use live_polling.Http.{
  Request, Context, blank, Envelope, Answer, fail, Stage, next, halted, Handler, proceed, chain,
  on_part, lifted,
}
use live_polling.Middleware.{
  changes_state, bare_delete, is_json, require_json, session_cookie_name, signed_in, with_session,
  require_auth,
}
use live_polling.Handlers.{Payload}
use live_polling.Router.{
  Backend, State, Call, method_of, Layer, json_required, session_required, route, serve,
}
use live_polling.Router.Guards.{is_options, not_json, global_next}

-- The account that a request's session cookie stands for.
abbrev pub session_user : (s : AuthService) → Option Str → Accounts s → Option User
session_user s none w = none
session_user s (some token) w =
    if is_empty token
    then none
    else elim (user_from_token s token w).0 [ ok user ↦ some user | err e ↦ none ]

-- The routes behind RequireAuth.
abbrev pub needs_session : Call → Bool
needs_session Call.me = true
needs_session Call.list_polls = true
needs_session (Call.create_poll body) = true
needs_session (Call.manage i) = true
needs_session (Call.update_poll i body) = true
needs_session (Call.delete_poll i) = true
needs_session (Call.close_poll i) = true
needs_session _ = false

abbrev pub IsFailure : Answer Payload → Type 0
IsFailure a = (e : ApiError) × (a.body ≡ Envelope.failure e)

module _ (s : AuthService) where
  -- What `RequireAuth` does, by the account of the cookie.
  abbrev pub Judged : Context → Option User → Stage (Accounts s) (Answer Payload) → Type 0
  Judged c none st = (a : Answer Payload) × ((w : Accounts s) × (st ≡ halted a c w) × IsFailure a)
  Judged c (some u) st = (w : Accounts s) × (st ≡ next (record c { auth_user = some u }) w)

  signed_in-Judged :
      (r : Result User) (c : Context) (w : Accounts s)
      → Judged c (elim r [ ok user ↦ some user | err e ↦ none ]) (signed_in r c w)
  unfolding signed_in
  signed_in-Judged (ok u) c w = (w, refl)
  signed_in-Judged (err e) c w = (_, (w, refl, (_, refl)))

  pub with_session-Judged :
      (o : Option Str) (c : Context) (w : Accounts s)
      → Judged c (session_user s o w) (with_session s o c w)
  unfolding with_session
  with_session-Judged none c w = (_, (w, refl, (_, refl)))
  with_session-Judged (some token) c w =
      elim (is_empty token)
        as (λ b.
          Judged c
            (if b
              then none
              else elim (user_from_token s token w).0 [ ok user ↦ some user | err e ↦ none ])
            (if b
              then halted (fail Code.unauthorized "Please sign in to continue.") c w
              else signed_in (user_from_token s token w).0 c (user_from_token s token w).1)) [
                | true ↦ (_, (w, refl, (_, refl)))
                | false ↦
                    signed_in-Judged (user_from_token s token w).0 c (user_from_token s token w).1
              ]

module _ (b : Backend) where
  -- The account behind a request.
  abbrev pub user_of : Request → State b → Option User
  user_of r w = session_user b.accounts (r.cookie session_cookie_name) w.accounts

  -- Nothing but the accounts' part of the state has changed, which a look at a session may leave at a
  -- later instant.
  abbrev pub IsRefusal : State b → Answer Payload × Context × State b → Type 0
  IsRefusal w o =
      IsFailure o.0 × (o.2.site ≡ w.site) × (o.2.hits ≡ w.hits) × (o.2.voters ≡ w.voters)

  json_step :
      (layers : List (Layer b)) (handler : Handler (State b) Payload) (r : Request) (c : Context)
      (w : State b)
      → (chain (json_required b ∷ layers) handler r c w ≡ chain layers handler r c w)
        ⊎ (chain (json_required b ∷ layers) handler r c w ≡ (not_json b, c, w))
  unfolding chain proceed require_json
  json_step layers handler r c w =
      elim (Bool-cases (not (changes_state r.method) || bare_delete r.method r.content_length)) [
        | inl passes ↦ inl (rw passes refl)
        | inr checked ↦
            elim (Bool-cases (is_json b.equal_fold (b.parse_media_type r.content_type))) [
              | inl json ↦ inl (rw (checked, json) refl)
              | inr foreign ↦ inr (rw (checked, foreign) refl)
            ]
      ]

  refused :
      (o : Option User) (st : Stage (Accounts b.accounts) (Answer Payload)) (c : Context)
      (rest : Context → State b → Answer Payload × Context × State b) (w : State b)
      → o ≡ none
      → Judged b.accounts c o st
      → IsRefusal w (proceed (lifted (λ a w. record w { accounts = a }) w st) rest)
  unfolding proceed lifted
  refused (some u) st c rest w gone judged = cc
  refused none st c rest w gone (a, (accounts, is, failed)) = rw is (failed, refl, refl, refl)

  session_refused :
      (layers : List (Layer b)) (handler : Handler (State b) Payload) (r : Request) (c : Context)
      (w : State b)
      → user_of r w ≡ none
      → IsRefusal w (chain (session_required b ∷ layers) handler r c w)
  unfolding chain session_required on_part require_auth
  session_refused layers handler r c w gone =
      refused (user_of r w) _ c _ w gone
        (with_session-Judged b.accounts (r.cookie session_cookie_name) c w.accounts)

  -- A route behind RequireAuth looks at the session right after the content type.
  second_layer :
      (call : Call)
      → needs_session call ≡ true
      → (layers : List (Layer b)) × ((route b call).0
          ≡ json_required b ∷ session_required b ∷ layers)
        × (is_options (method_of call) ≡ false)
  unfolding route
  second_layer Call.me h = (_, refl, refl)
  second_layer Call.list_polls h = (_, refl, refl)
  second_layer (Call.create_poll body) h = (_, refl, refl)
  second_layer (Call.manage i) h = (_, refl, refl)
  second_layer (Call.update_poll i body) h = (_, refl, refl)
  second_layer (Call.delete_poll i) h = (_, refl, refl)
  second_layer (Call.close_poll i) h = (_, refl, refl)
  second_layer _ h = cc

  -- Without a session that stands for an account, a request to a route behind RequireAuth is answered
  -- with an error, and no poll, vote or result changes, nor does it count against a limit.
  pub serve_refusal :
      (fresh : Str) (call : Call) (r : Request) (w : State b)
      → needs_session call ≡ true
      → user_of r w ≡ none
      → IsRefusal w (serve b fresh call r w)
  unfolding serve
  serve_refusal fresh call r w needs gone =
      let r' = record r { method = method_of call } in
      let (layers, is, plain) = second_layer call needs in
      let handler = (route b call).1 in
      let (c, through) = global_next b fresh (route b call).0 handler r' blank w plain in
      subst (IsRefusal w) (sym (through ∙ ap (λ ls. chain ls handler r' c w) is))
        (elim (json_step (session_required b ∷ layers) handler r' c w) [
          | inl on ↦ subst (IsRefusal w) (sym on) (session_refused layers handler r' c w gone)
          | inr off ↦ subst (IsRefusal w) (sym off) ((_, refl), refl, refl, refl)
        ])
