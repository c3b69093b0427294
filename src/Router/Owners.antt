-- ===== src/Router/Owners.antt =====
-- A signed-in request acts as its account (backend/internal/router/router.go).
use live_polling.Prelude.{
  ◌≡◌, refl, sym, ap, subst, ◌∙◌, inl, inr, Bool, true, false, not, ◌||◌, Option, none, some, List,
  [], ◌∷◌, Str, arith, Bool-cases,
}
use live_polling.Models.{User}
use live_polling.Services.Auth.{World as Accounts}
use live_polling.Services.Polls as polls
use live_polling.Http.{
  Method, Request, Context, blank, Answer, Stage, Handler, proceed, chain, on_part, lifted,
}
use live_polling.Middleware.{
  changes_state, bare_delete, is_json, require_json, session_cookie_name, require_auth,
}
use live_polling.Handlers.{Payload, Body, UpdatePollRequest, update_input}
use live_polling.Handlers.Acting.{Answers, update-Answers, close-Answers, delete-Answers}
use live_polling.Router.{
  Backend, State, Call, method_of, Layer, json_required, session_required, route, serve,
}
use live_polling.Router.Guards.{is_options, global_next}
use live_polling.Router.Sessions.{Judged, with_session-Judged, user_of}

some-injective : {u v : User} → some u ≡ some v → u ≡ v
some-injective h = cc

module _ (b : Backend) where
  -- A request that goes through to its handler: it declares JSON where it must.
  abbrev pub IsDeclared : Method → Request → Type 0
  IsDeclared m r =
      (not (changes_state m)
        || bare_delete m r.content_length
        || is_json b.equal_fold (b.parse_media_type r.content_type))
      ≡ true

  json_passed :
      (layers : List (Layer b)) (handler : Handler (State b) Payload) (r : Request) (c : Context)
      (w : State b)
      → IsDeclared r.method r
      → chain (json_required b ∷ layers) handler r c w ≡ chain layers handler r c w
  unfolding chain proceed require_json
  json_passed layers handler r c w declared =
      elim (Bool-cases (not (changes_state r.method) || bare_delete r.method r.content_length)) [
        | inl passes ↦ rw passes refl
        | inr checked ↦
            let json : is_json b.equal_fold (b.parse_media_type r.content_type) ≡ true =
              is_declared (not (changes_state r.method)) (bare_delete r.method r.content_length) _
                declared checked in
            rw (checked, json) refl
      ]
    where
      is_declared : (x y z : Bool) → (x || y || z) ≡ true → (x || y) ≡ false → z ≡ true
      is_declared x y z h k = ground arith

  granted :
      (o : Option User) (st : Stage (Accounts b.accounts) (Answer Payload)) (c : Context)
      (rest : Context → State b → Answer Payload × Context × State b) (w : State b) (u : User)
      → o ≡ some u
      → Judged b.accounts c o st
      → (a : Accounts b.accounts) × (proceed (lifted (λ a w. record w { accounts = a }) w st) rest
          ≡ rest (record c { auth_user = some u }) (record w { accounts = a }))
  unfolding proceed lifted
  granted none st c rest w u signed judged = cc
  granted (some v) st c rest w u signed (a, is) = (a, rw (is, some-injective signed) refl)

  session_passed :
      (handler : Handler (State b) Payload) (r : Request) (c : Context) (w : State b) (u : User)
      → user_of b r w ≡ some u
      → (a : Accounts b.accounts) × (chain (session_required b ∷ []) handler r c w
          ≡ handler r (record c { auth_user = some u }) (record w { accounts = a }))
  unfolding chain session_required on_part require_auth
  session_passed handler r c w u signed =
      granted (user_of b r w) _ c (handler r) w u signed
        (with_session-Judged b.accounts (r.cookie session_cookie_name) c w.accounts)

  -- The routes that change one poll of its owner, and what the service is asked to do.
  owner_passed :
      (fresh : Str) (call : Call) (handler : Handler (State b) Payload) (r : Request) (w : State b)
      (u : User)
      → route b call ≡ (json_required b ∷ session_required b ∷ [], handler)
      → is_options (method_of call) ≡ false
      → IsDeclared (method_of call) r
      → user_of b r w ≡ some u
      → (c : Context) × ((a : Accounts b.accounts) × (serve b fresh call r w
            ≡ handler
                (record r { method = method_of call })
                (record c { auth_user = some u })
                (record w { accounts = a })))
  unfolding serve
  owner_passed fresh call handler r w u is plain declared signed =
      let r' = record r { method = method_of call } in
      let (c, through) = global_next b fresh (route b call).0 (route b call).1 r' blank w plain in
      let (a, passed) = session_passed handler r' c w u signed in
      (
        c,
        (
          a,
          through
              ∙ ap (λ (p : List (Layer b) × Handler (State b) Payload). chain p.0 p.1 r' c w) is
              ∙ json_passed (session_required b ∷ []) handler r' c w declared
              ∙ passed,
        ),
      )

  -- A signed-in request to change a poll, with a body that is decoded, to close it or to delete it, that
  -- declares JSON where RequireJSON asks for it, asks the service for just that, as the account that
  -- the session stands for: the polls and votes are then as the service leaves them, and an error of
  -- the service is what is answered.
  pub serve_owner :
      (fresh i : Str) (req : UpdatePollRequest) (r : Request) (w : State b) (u : User)
      → user_of b r w ≡ some u
      → (IsDeclared Method.patch r
          → let o = serve b fresh (Call.update_poll i (Body.decoded req)) r w in
            Answers b.stores (polls.update b.stores u.id i (update_input req) w.site) o.0 o.2.site)
        × (IsDeclared Method.post r
            → let o = serve b fresh (Call.close_poll i) r w in
              Answers b.stores (polls.close b.stores u.id i w.site) o.0 o.2.site)
        × (IsDeclared Method.delete r
            → let o = serve b fresh (Call.delete_poll i) r w in
              Answers b.stores (polls.delete b.stores u.id i w.site) o.0 o.2.site)
  unfolding route
  serve_owner fresh i req r w u signed = (
    (λ declared.
        let (c, (a, is)) =
          owner_passed fresh (Call.update_poll i (Body.decoded req)) _ r w u refl refl declared
            signed in
        subst
          (λ o.
            Answers b.stores (polls.update b.stores u.id i (update_input req) w.site) o.0 o.2.site)
          (sym is) (update-Answers b.stores i req (record c { auth_user = some u }) w.site u refl)),
    (λ declared.
        let (c, (a, is)) =
          owner_passed fresh (Call.close_poll i) _ r w u refl refl declared signed in
        subst (λ o. Answers b.stores (polls.close b.stores u.id i w.site) o.0 o.2.site) (sym is)
          (close-Answers b.stores i (record c { auth_user = some u }) w.site u refl)),
    (λ declared.
        let (c, (a, is)) =
          owner_passed fresh (Call.delete_poll i) _ r w u refl refl declared signed in
        subst (λ o. Answers b.stores (polls.delete b.stores u.id i w.site) o.0 o.2.site) (sym is)
          (delete-Answers b.stores i (record c { auth_user = some u }) w.site u refl)),
  )
