-- ===== src/Handlers/Acting.antt =====
-- Whose poll a handler works on, and what it makes of the service's answer
-- (backend/internal/handlers/poll_handler.go).
use live_polling.Prelude.{◌≡◌, refl, ap, Option, none, some, List, Str, true, false}
use live_polling.Apperr.{Error, Result, ok, err, err-injective, domain}
use live_polling.Models.{Time, User, Poll}
use live_polling.Http.{Context, Answer, fail_with, ok_with}
use live_polling.Services.World.{Stores, World}
use live_polling.Services.Polls as polls
use live_polling.Handlers.{
  Payload, Body, Field, UpdatePollRequest, nullable_time, update_input, bind_json, with_user,
  poll_answer, deleted, update, close, delete,
}

module _ (s : Stores) where
  -- An answer to what a service has done: the polls and votes are as it left them, and its error is
  -- the one that is answered.
  abbrev pub Answers {ℓ} : {A : Type ℓ} → Result A × World s → Answer Payload → World s → Type ℓ
  Answers done a w =
      (w.polls ≡ done.1.polls)
      × (w.votes ≡ done.1.votes)
      × ((e : Error) → done.0 ≡ err e → a ≡ fail_with (domain e))

  poll_answer-Answers :
      (status : Payload → Answer Payload) (c : Context) (r : Result Poll) (w : World s)
      → let o = poll_answer s status c (r, w) in Answers (r, w) o.0 o.2
  unfolding poll_answer
  poll_answer-Answers status c (err e) w =
      (refl, refl, (λ x h. ap (λ y. fail_with (domain y)) (err-injective h)))
  poll_answer-Answers status c (ok poll) w = (refl, refl, (λ x h. cc))

  deleted-Answers :
      (c : Context) (r : Result (Unit {0})) (w : World s)
      → let o = deleted s c (r, w) in Answers (r, w) o.0 o.2
  unfolding deleted
  deleted-Answers c (err e) w =
      (refl, refl, (λ x h. ap (λ y. fail_with (domain y)) (err-injective h)))
  deleted-Answers c (ok u) w = (refl, refl, (λ x h. cc))

  pub update-Answers :
      (i : Str) (req : UpdatePollRequest) (c : Context) (w : World s) (u : User)
      → c.auth_user ≡ some u
      → let o = update s i (Body.decoded req) c w in
        Answers (polls.update s u.id i (update_input req) w) o.0 o.2
  unfolding update with_user bind_json
  update-Answers i req c w u h =
      let (r, w') = polls.update s u.id i (update_input req) w in
      rw h (poll_answer-Answers ok_with (record c { auth_user = some u }) r w')

  pub close-Answers :
      (i : Str) (c : Context) (w : World s) (u : User)
      → c.auth_user ≡ some u
      → let o = close s i c w in Answers (polls.close s u.id i w) o.0 o.2
  unfolding close with_user
  close-Answers i c w u h =
      let (r, w') = polls.close s u.id i w in
      rw h (poll_answer-Answers ok_with (record c { auth_user = some u }) r w')

  pub delete-Answers :
      (i : Str) (c : Context) (w : World s) (u : User)
      → c.auth_user ≡ some u
      → let o = delete s i c w in Answers (polls.delete s u.id i w) o.0 o.2
  unfolding delete with_user
  delete-Answers i c w u h =
      let (r, w') = polls.delete s u.id i w in
      rw h (deleted-Answers (record c { auth_user = some u }) r w')

-- A PATCH that leaves the closing time out leaves it alone, one with null asks for it to be cleared,
-- and one with an instant asks for that one: never for both.
pub update_input_expiry :
    (question : Option Str) (options : Option (List Str)) (field : Field Time)
    → let input =
        update_input
          (record { question = question; options = options; expires_at = nullable_time field }) in
      (input.expires_at
        ≡ elim field [ Field.absent ↦ none | Field.null ↦ none | Field.value t ↦ some t ])
      × (input.clear_expiry
          ≡ elim field [ Field.absent ↦ false | Field.null ↦ true | Field.value t ↦ false ])
unfolding update_input nullable_time
update_input_expiry question options Field.absent = (refl, refl)
update_input_expiry question options Field.null = (refl, refl)
update_input_expiry question options (Field.value t) = (refl, refl)
