-- ===== src/Services/Auth/Sessions.antt =====
-- The token of a session and the account that it stands for
-- (backend/internal/services/auth_service.go).
use live_polling.Prelude.{
  ◌+◌, ◌≤◌, ◌<◌, ◌≡◌, refl, sym, ap, subst, ◌∙◌, ◌⊎◌, inl, inr, Str, is_empty, Member, if_elim,
}
use live_polling.Apperr.{
  Code, Error, Attempt, done, failed, Result, ok, err, ok-injective, err-injective, is, domain,
}
use live_polling.Apperr.Laws.{is_same, is_other}
use live_polling.Models.{ObjectId, Time, User}
use live_polling.Services.Accounts.{Claims, IsBefore}
use live_polling.Services.Auth.{
  AuthService, World, Session, token_issuer, numeric_date, unauthorised, session_claims, session_of,
  new_session, resolved, subject_read, token_read, user_from_token,
}

module _ (s : AuthService) where
  session_of_ok :
      (user : User) (t : Time) (a : Attempt Str) (x : Session)
      → session_of s user t a ≡ ok x
      → (a ≡ done x.token) × (x.user ≡ user) × (x.expires_at ≡ t)
  unfolding session_of
  session_of_ok user t (failed c) x h = cc
  session_of_ok user t (done signed) x h =
      let is : record { user = user; token = signed; expires_at = t } ≡ x = ok-injective h in
      (
        ap (λ (x : Session). done x.token) is,
        ap (λ (x : Session). x.user) (sym is),
        ap (λ (x : Session). x.expires_at) (sym is),
      )

  -- A new session is for the account that it was made for, and its expiry is the configured time from
  -- now.
  pub new_session_ok :
      (user : User) (w : World s) (x : Session)
      → (new_session s user w).0 ≡ ok x
      → (s.tokens.signed s.jwt_secret (session_claims s user (s.clock.now w.clock).0)
          ≡ done x.token)
        × (x.user ≡ user)
        × (x.expires_at ≡ (s.clock.now w.clock).0 + s.jwt_expiry)
  unfolding new_session
  new_session_ok user w x h = session_of_ok user _ _ x h

  -- The token of a new session stands for its account: presented at any instant from the start of the
  -- second in which it was made to the start of the one in which it ends, it gets the account with the
  -- session's id as the store has it then, or what becomes of the lookup's error.
  pub user_from_token-new_session :
      (user : User) (w w' : World s) (x : Session)
      → (new_session s user w).0 ≡ ok x
      → numeric_date (s.clock.now w.clock).0 ≤ (s.clock.now w'.clock).0
      → (s.clock.now w'.clock).0 < numeric_date x.expires_at
      → (user_from_token s x.token w').0 ≡ resolved s (s.users.find_by_id x.user.id w'.users).0
  unfolding user_from_token token_read subject_read
  user_from_token-new_session user w w' x h begun soon =
      let (signed, who, until) = new_session_ok user w x h in
      rw
        (
          s.tokens.signed_nonempty _ _ _ signed,
          s.tokens.parse-signed _ _ (s.clock.now w'.clock).0 _ signed begun
              (subst (λ t. (s.clock.now w'.clock).0 < numeric_date t) until soon),
          s.ids.from_hex-hex user.id,
          who,
        )
        refl

  -- What an account says of the token that it is resolved from: the token is signed for an account
  -- that is in the store, by this program, and has not ended.
  abbrev pub Stands : Str → World s → User → Type 0
  Stands token w user =
      (c : Claims) × (s.tokens.parse s.jwt_secret token_issuer (s.clock.now w.clock).0 token
        ≡ done c)
      × (c.issuer ≡ token_issuer)
      × IsBefore (s.clock.now w.clock).0 c.expires_at
      × (s.ids.from_hex c.subject ≡ done user.id)
      × Member user (s.users.users w.users)

  abbrev Refused : Error → Type 0
  Refused e = (e ≡ unauthorised) ⊎ (e.code ≡ Code.internal)

  resolved_err :
      (r : Result User) (e : Error)
      → ((x : Error) → r ≡ err x → (x.code ≡ Code.not_found) ⊎ (x.code ≡ Code.internal))
      → resolved s r ≡ err e
      → Refused e
  unfolding resolved
  resolved_err (ok u) e known h = cc
  resolved_err (err x) e known h = elim (known x refl) [
    | inl code ↦ inl (sym (err-injective (rw (is_same x Code.not_found code) at h)))
    | inr code ↦ inr (
        ap (λ (y : Error). y.code)
          (sym (err-injective (rw (is_other x Code.not_found (λ q. apart (sym code ∙ q))) at h)))
        ∙ code)
  ]
    where
      apart : Code.internal ≡ Code.not_found → ⊥
      apart q = cc

  resolved_ok : (r : Result User) (u : User) → resolved s r ≡ ok u → r ≡ ok u
  unfolding resolved
  resolved_ok (ok v) u h = h
  resolved_ok (err x) u h =
      absurd
        (if_elim (λ r. r ≡ ok u → ⊥) (is (domain x) Code.not_found) _ _ (λ _ q. cc) (λ _ q. cc) h)

  abbrev Safe : Str → World s → Result User → Type 0
  Safe token w r =
      ((user : User) → r ≡ ok user → Stands token w user) × ((e : Error) → r ≡ err e → Refused e)

  refused-Safe : (token : Str) (w : World s) → Safe token w (err unauthorised)
  refused-Safe token w = ((λ u h. cc), (λ e h. inl (sym (err-injective h))))

  subject_read-Safe :
      (token : Str) (w : World s) (clock : s.clock.Db) (c : Claims) (a : Attempt ObjectId)
      → s.tokens.parse s.jwt_secret token_issuer (s.clock.now w.clock).0 token ≡ done c
      → s.ids.from_hex c.subject ≡ a
      → Safe token w (subject_read s a (record w { clock = clock })).0
  unfolding subject_read
  subject_read-Safe token w clock c (failed x) parsed read = refused-Safe token w
  subject_read-Safe token w clock c (done i) parsed read =
      let (issued, _, lasting) = s.tokens.parse_done _ _ _ _ c parsed in
      (
        (λ u h.
            let (is, there) = s.users.find_by_id_ok i w.users u (resolved_ok _ u h) in
            (c, parsed, issued, lasting, read ∙ ap done (sym is), there)),
        (λ e h. resolved_err _ e (known_err i w) h),
      )
    where
      known_err :
          (i : ObjectId) (w : World s) (x : Error)
          → (s.users.find_by_id i w.users).0 ≡ err x
          → (x.code ≡ Code.not_found) ⊎ (x.code ≡ Code.internal)
      known_err i w x h = elim (s.users.find_by_id_err i w.users x h) [
        | inl (code, _) ↦ inl code
        | inr code ↦ inr code
      ]

  token_read-Safe :
      (token : Str) (w : World s) (clock : s.clock.Db) (a : Attempt Claims)
      → s.tokens.parse s.jwt_secret token_issuer (s.clock.now w.clock).0 token ≡ a
      → Safe token w (token_read s a (record w { clock = clock })).0
  unfolding token_read
  token_read-Safe token w clock (failed x) parsed = refused-Safe token w
  token_read-Safe token w clock (done c) parsed = subject_read-Safe token w clock c _ parsed refl

  -- Only a token that stands for an account gets it, and every refusal is the same one unless the
  -- store itself fails: whatever the token is.
  pub user_from_token_safe :
      (token : Str) (w : World s)
      → ((user : User) → (user_from_token s token w).0 ≡ ok user → Stands token w user)
        × ((e : Error) → (user_from_token s token w).0 ≡ err e → Refused e)
  unfolding user_from_token
  user_from_token_safe token w =
      if_elim (λ (r : Result User × World s). Safe token w r.0) (is_empty token) _ _
        (λ _. refused-Safe token w) (λ _. token_read-Safe token w (s.clock.now w.clock).1 _ refl)
