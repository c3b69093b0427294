-- ===== src/Handlers.antt =====
-- The HTTP handlers: backend/internal/handlers. A request's body comes decoded: gin's ShouldBindJSON
-- has given the fields, or failed.
pub mod Responses
pub mod Acting
pub mod Sockets
pub mod Accounts
use live_polling.Prelude.{Bool, true, false, ◌&&◌, Option, none, some, List, [], map, Str}
use live_polling.Apperr.{Code, Result, ok, err, domain}
use live_polling.Models.{ObjectId, Time, Poll}
use live_polling.Http.{Context, Answer, fail, fail_with, ok_with, created_with}
use live_polling.Middleware.{current_user_id}
use live_polling.Middleware.Voter.{current_voter_id}
use live_polling.Services.World.{Stores, World}
use live_polling.Services.Results.{Results}
use live_polling.Services.Votes as votes
use live_polling.Services.Polls as polls
use live_polling.Services.Polls.{UpdatePollInput}
use live_polling.Services.Polls.Listing.{PollWithTotal, list_for_owner}
use Responses.{
  PollSummaryResponse, new_poll_summary_response, UserResponse, PollResponse, ResultsResponse,
  new_poll_response, new_results_response,
}

-- The data of a success.
pub data Payload : Type 0 where
  user_data : UserResponse → Payload
  poll_data : PollResponse → Payload
  polls_data : List PollSummaryResponse → Payload
  results_data : ResultsResponse → Payload
  no_data : Payload

-- A body as it was read: decoded, cut off by the body limit, or not JSON of the right shape.
pub data Body (A : Type 0) : Type 0 where
  decoded : A → Body A
  oversized unreadable : Body A

-- `createPollRequest` and `voteRequest`
pub record CreatePollRequest : Type 0 where
  pub question : Str
  pub options : List Str
  pub expires_at : Option Time

pub record VoteRequest : Type 0 where
  pub option_id : Str

-- A field of a PATCH, as the document has it: it is not there, it is null, or it has a value.
pub data Field (A : Type 0) : Type 0 where
  absent null : Field A
  value : A → Field A

-- `jsonNullableTime`
pub record NullableTime : Type 0 where
  pub present : Bool
  pub value : Option Time

-- `UnmarshalJSON`, which is called only for a field that is there.
unfoldable pub nullable_time : Field Time → NullableTime
nullable_time Field.absent = record { present = false; value = none }
nullable_time Field.null = record { present = true; value = none }
nullable_time (Field.value t) = record { present = true; value = some t }

-- `updatePollRequest`; null in the other two fields is the same as no field.
pub record UpdatePollRequest : Type 0 where
  pub question : Option Str
  pub options : Option (List Str)
  pub expires_at : NullableTime

abbrev is_none : Option Time → Bool
is_none none = true
is_none (some t) = false

-- The input that `Update` makes of it.
unfoldable pub update_input : UpdatePollRequest → UpdatePollInput
update_input req = record {
  question = req.question;
  options = req.options;
  expires_at = req.expires_at.value;
  clear_expiry = req.expires_at.present && is_none req.expires_at.value;
}

abbrev pub Outcome : Type 0 → Type 0
Outcome W = Answer Payload × Context × W

-- `bindJSON`
unfoldable pub bind_json :
    {A W : Type 0} → Body A → (A → Context → W → Outcome W) → Context → W → Outcome W
bind_json (Body.decoded a) handler c w = handler a c w
bind_json Body.oversized handler c w = (fail Code.too_large "That request is too large.", c, w)
bind_json Body.unreadable handler c w =
    (fail Code.validation "The request body could not be read as JSON.", c, w)

-- The check of `CurrentUserID` at the start of the poll handlers.
unfoldable pub with_user :
    {W : Type 0} → Option ObjectId → (ObjectId → Context → W → Outcome W) → Context → W → Outcome W
with_user none handler c w = (fail Code.unauthorized "Please sign in to continue.", c, w)
with_user (some owner) handler c w = handler owner c w

module _ (s : Stores) where
  -- The answer with a poll, at the handler's own reading of the clock.
  poll_answer : (Payload → Answer Payload) → Context → Result Poll × World s → Outcome (World s)
  poll_answer status c (err e, w) = (fail_with (domain e), c, w)
  poll_answer status c (ok poll, w) =
      let (now, clock) = s.clock.now w.clock in
      (status (Payload.poll_data (new_poll_response s.ids poll now)), c, record w { clock = clock })

  -- `PollHandler.Get`
  unfoldable pub get : Str → Context → World s → Outcome (World s)
  unfolding poll_answer
  get poll_id c w =
      let (poll, polls) = s.polls.find_by_id poll_id w.polls in
      poll_answer ok_with c (poll, record w { polls = polls })

  -- `PollHandler.Create`
  unfoldable pub create : Body CreatePollRequest → Context → World s → Outcome (World s)
  unfolding poll_answer
  create body c =
      with_user (current_user_id c)
        (λ owner. bind_json body (λ req c w. poll_answer created_with c (
          polls.create s owner
            (record { question = req.question; options = req.options; expires_at = req.expires_at })
            w)))
        c

  summaries : Context → Result (List PollWithTotal) × World s → Outcome (World s)
  summaries c (err e, w) = (fail_with (domain e), c, w)
  summaries c (ok rows, w) =
      let (now, clock) = s.clock.now w.clock in
      (
        ok_with (
            Payload.polls_data (
              map (λ (r : PollWithTotal). new_poll_summary_response s.ids r.poll r.total_votes now)
                rows)),
        c,
        record w { clock = clock },
      )

  -- `PollHandler.List`
  unfoldable pub list : Context → World s → Outcome (World s)
  unfolding summaries
  list c = with_user (current_user_id c) (λ owner c w. summaries c (list_for_owner s owner w)) c

  -- `PollHandler.Update`
  unfoldable pub update : Str → Body UpdatePollRequest → Context → World s → Outcome (World s)
  unfolding poll_answer
  update poll_id body c =
      with_user (current_user_id c)
        (λ owner.
          bind_json body
            (λ req c w. poll_answer ok_with c (polls.update s owner poll_id (update_input req) w)))
        c

  -- `PollHandler.Close`
  unfoldable pub close : Str → Context → World s → Outcome (World s)
  unfolding poll_answer
  close poll_id c =
      with_user (current_user_id c)
        (λ owner c w. poll_answer ok_with c (polls.close s owner poll_id w)) c

  -- `PollHandler.Manage`
  unfoldable pub manage : Str → Context → World s → Outcome (World s)
  unfolding poll_answer
  manage poll_id c =
      with_user (current_user_id c)
        (λ owner c w. poll_answer ok_with c (polls.get_owned s owner poll_id w)) c

  deleted : Context → Result (Unit {0}) × World s → Outcome (World s)
  deleted c (err e, w) = (fail_with (domain e), c, w)
  deleted c (ok _, w) = (ok_with Payload.no_data, c, w)

  -- `PollHandler.Delete`
  unfoldable pub delete : Str → Context → World s → Outcome (World s)
  unfolding deleted
  delete poll_id c =
      with_user (current_user_id c) (λ owner c w. deleted c (polls.delete s owner poll_id w)) c

  voted : Str → Context → Result Results × World s → Outcome (World s)
  voted option_id c (err e, w) = (fail_with (domain e), c, w)
  voted option_id c (ok results, w) =
      (created_with (Payload.results_data (new_results_response results option_id)), c, w)

  -- `VoteHandler.Vote` once the voter is known.
  vote_as : Option Str → Str → Body VoteRequest → Context → World s → Outcome (World s)
  unfolding voted
  vote_as none poll_id body c w = (
    fail Code.internal "Could not identify your browser. Please enable cookies and try again.",
    c,
    w,
  )
  vote_as (some voter_id) poll_id body c w =
      bind_json body
        (λ req c w. voted req.option_id c (votes.cast s poll_id req.option_id voter_id w)) c w

  -- `VoteHandler.Vote`
  unfoldable pub vote : Str → Body VoteRequest → Context → World s → Outcome (World s)
  unfolding vote_as
  vote poll_id body c w = vote_as (current_voter_id c) poll_id body c w

  -- The choice of this browser, if it is known.
  your_vote : Option Str → Str → World s → Str × World s
  your_vote none poll_id w = ([], w)
  your_vote (some voter_id) poll_id w = votes.vote_of s poll_id voter_id w

  standing : Context → Result Results × World s → Outcome (World s)
  unfolding your_vote
  standing c (err e, w) = (fail_with (domain e), c, w)
  standing c (ok results, w) =
      let (choice, w') = your_vote (current_voter_id c) results.poll_id w in
      (ok_with (Payload.results_data (new_results_response results choice)), c, w')

  -- `VoteHandler.Results`
  unfoldable pub results : Str → Context → World s → Outcome (World s)
  unfolding standing
  results poll_id c w = standing c (votes.results s poll_id w)
