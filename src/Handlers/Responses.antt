-- ===== src/Handlers/Responses.antt =====
-- What a client sees of the domain: backend/internal/handlers/dto.go.
use live_polling.Prelude.{Bool, Option, List, map, Str, Int64}
use live_polling.Models.{Time, User, Poll, PollOption, status_text, accepts_votes, effective_status}
use live_polling.Services.Stores.{ObjectIds}
use live_polling.Services.Results.{OptionResult, Results}

-- `UserResponse`
pub record UserResponse : Type 0 where
  pub id : Str
  pub name : Str
  pub email : Str
  pub created_at : Time

-- `newUserResponse`
abbrev pub new_user_response : ObjectIds → User → UserResponse
new_user_response ids u = record {
  id = ids.hex u.id;
  name = u.name;
  email = u.email;
  created_at = u.created_at;
}

-- `OptionResponse`
pub record OptionResponse : Type 0 where
  pub id : Str
  pub text : Str

-- `PollResponse`
pub record PollResponse : Type 0 where
  pub id : Str
  pub question : Str
  pub options : List OptionResponse
  pub status : Str
  pub created_at : Time
  pub updated_at : Time
  pub expires_at : Option Time
  pub accepts_votes : Bool

-- `newPollResponse`
unfoldable pub new_poll_response : ObjectIds → Poll → Time → PollResponse
new_poll_response ids p now = record {
  id = ids.hex p.id;
  question = p.question;
  options = map (λ (o : PollOption). record { id = o.id; text = o.text }) p.options;
  status = status_text (effective_status p now);
  created_at = p.created_at;
  updated_at = p.updated_at;
  expires_at = p.expires_at;
  accepts_votes = accepts_votes p now;
}

-- `PollSummaryResponse`
pub record PollSummaryResponse : Type 0 where
  pub poll : PollResponse
  pub total_votes : Int64

-- `newPollSummaryResponse`
unfoldable pub new_poll_summary_response : ObjectIds → Poll → Int64 → Time → PollSummaryResponse
new_poll_summary_response ids p total now = record {
  poll = new_poll_response ids p now;
  total_votes = total;
}

-- `OptionResultResponse`
pub record OptionResultResponse : Type 0 where
  pub option_id : Str
  pub text : Str
  pub count : Int64

-- `ResultsResponse`
pub record ResultsResponse : Type 0 where
  pub poll_id : Str
  pub results : List OptionResultResponse
  pub total_votes : Int64
  pub status : Str
  pub computed_at : Time
  pub your_vote : Str

-- `newResultsResponse`
unfoldable pub new_results_response : Results → Str → ResultsResponse
new_results_response results your_vote = record {
  poll_id = results.poll_id;
  results =
      map (λ (o : OptionResult). record { option_id = o.option_id; text = o.text; count = o.count })
        results.options;
  total_votes = results.total_votes;
  status = status_text results.status;
  computed_at = results.computed_at;
  your_vote = your_vote;
}
