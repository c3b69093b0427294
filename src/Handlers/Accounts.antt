-- ===== src/Handlers/Accounts.antt =====
-- The handlers of accounts: backend/internal/handlers/auth_handler.go.
use live_polling.Prelude.{◌-◌, ◌/◌, Option, none, some}
use live_polling.Apperr.{Code, Result, ok, err, domain}
use live_polling.Models.{User}
use live_polling.Http.{Context, Answer, fail, fail_with, ok_with, created_with}
use live_polling.Middleware.{CookieSettings, set_session, clear_session}
use live_polling.Services.Auth as auth
use live_polling.Services.Auth.{AuthService, World as Accounts, Session, RegisterInput, LoginInput}
use live_polling.Handlers.{Payload, Body, Outcome, bind_json}
use live_polling.Handlers.Responses.{new_user_response}

module _ (s : AuthService) (cookies : CookieSettings) where
  -- `startSession` and the answer, at the handler's own reading of the clock.
  session_answer :
      (Payload → Answer Payload) → Context → Result Session × Accounts s → Outcome (Accounts s)
  session_answer status c (err e, w) = (fail_with (domain e), c, w)
  session_answer status c (ok session, w) =
      let (now, clock) = s.clock.now w.clock in
      (
        status (Payload.user_data (new_user_response s.ids session.user)),
        set_session cookies session.token ((session.expires_at - now) / 1_000_000_000) c,
        record w { clock = clock },
      )

  -- `AuthHandler.Register`
  unfoldable pub register : Body RegisterInput → Context → Accounts s → Outcome (Accounts s)
  unfolding session_answer
  register body = bind_json body (λ req c w. session_answer created_with c (auth.register s req w))

  -- `AuthHandler.Login`
  unfoldable pub login : Body LoginInput → Context → Accounts s → Outcome (Accounts s)
  unfolding session_answer
  login body = bind_json body (λ req c w. session_answer ok_with c (auth.login s req w))

  -- `AuthHandler.Logout`
  unfoldable pub logout : Context → Accounts s → Outcome (Accounts s)
  logout c w = (ok_with Payload.no_data, clear_session cookies c, w)

  -- `AuthHandler.Me`
  me_as : Option User → Context → Accounts s → Outcome (Accounts s)
  me_as none c w = (fail Code.unauthorized "Please sign in to continue.", c, w)
  me_as (some user) c w = (ok_with (Payload.user_data (new_user_response s.ids user)), c, w)

  unfoldable pub me : Context → Accounts s → Outcome (Accounts s)
  unfolding me_as
  me c w = me_as c.auth_user c w
