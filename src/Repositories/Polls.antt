-- ===== src/Repositories/Polls.antt =====
-- `PollUpdate` and what `PollRepository.Update` does to the document that its filter matches:
-- backend/internal/repositories/poll_repository.go.
use live_polling.Prelude.{Bool, Option, none, some, List, Str, map, ◌==◌, ◌&&◌, if◌then◌else◌}
use live_polling.Models.{ObjectId, Time, Poll, PollOption, PollStatus}

-- `PollUpdate`: a missing field is left unchanged.
pub record PollUpdate : Type 0 where
  pub question : Option Str
  pub options : Option (List PollOption)
  pub status : Option PollStatus
  pub expires_at : Option Time
  pub clear_expiry : Bool

abbrev pub or {ℓ} : {A : Type ℓ} → Option A → A → A
or none x = x
or (some y) x = y

abbrev pub new_expiry : PollUpdate → Option Time → Option Time
new_expiry u old =
    if u.clear_expiry then none else elim u.expires_at [ none ↦ old | some t ↦ some t ]

-- The `$set` and `$unset` of the update, at the instant `now`.
unfoldable pub apply : PollUpdate → Time → Poll → Poll
apply u now p = record p {
  question = or u.question p.question;
  options = or u.options p.options;
  status = or u.status p.status;
  expires_at = new_expiry u p.expires_at;
  updated_at = now;
}

-- The documents after an update whose filter is the poll's id and its owner.
unfoldable pub updated : ObjectId → ObjectId → PollUpdate → Time → List Poll → List Poll
unfolding apply
updated id owner u now = map λ p. if p.id == id && p.owner_id == owner then apply u now p else p
