-- ===== src/Models.antt =====
-- The domain types and their rules: backend/internal/models. An ObjectID is only compared, so it
-- is a number; an instant is its distance in nanoseconds from an epoch before every instant that a
-- request can name.
pub mod Laws
mod Tests
use live_polling.Prelude.{
  ℕ, Bool, true, false, not, ◌&&◌, Option, none, some, List, [], ◌∷◌, map, Str, str_eq, codes,
  Int64, ltb, if◌then◌else◌,
}

abbrev pub ObjectId : Type 0
ObjectId = ℕ

abbrev pub Time : Type 0
Time = ℕ

-- `models.PollStatus`: the two constants, or any other text that the field may hold.
pub data PollStatus : Type 0 where
  active closed : PollStatus
  unknown : Str → PollStatus

-- `string(status)`
abbrev pub status_text : PollStatus → Str
status_text PollStatus.active = codes "active"
status_text PollStatus.closed = codes "closed"
status_text (PollStatus.unknown s) = s

-- `PollStatus.Valid`
pub valid_status : PollStatus → Bool
valid_status PollStatus.active = true
valid_status PollStatus.closed = true
valid_status (PollStatus.unknown s) = false

-- `s == PollStatusActive`
abbrev pub is_active : PollStatus → Bool
is_active PollStatus.active = true
is_active _ = false

-- `s == PollStatusClosed`
abbrev pub is_closed : PollStatus → Bool
is_closed PollStatus.closed = true
is_closed _ = false

-- `models.Option`
pub record PollOption : Type 0 where
  pub id : Str
  pub text : Str

-- `models.Poll`
pub record Poll : Type 0 where
  pub id : ObjectId
  pub owner_id : ObjectId
  pub question : Str
  pub options : List PollOption
  pub status : PollStatus
  pub created_at : Time
  pub updated_at : Time
  pub expires_at : Option Time

-- `models.Vote`
pub record Vote : Type 0 where
  pub id : ObjectId
  pub poll_id : ObjectId
  pub option_id : Str
  pub voter_id : Str
  pub created_at : Time

-- `models.OptionCount`
pub record OptionCount : Type 0 where
  pub option_id : Str
  pub count : Int64

-- `models.User`
pub record User : Type 0 where
  pub id : ObjectId
  pub name : Str
  pub email : Str
  pub password_hash : Str
  pub created_at : Time
  pub updated_at : Time

-- The loop of `Poll.HasOption`.
unfoldable pub has_option_in : List PollOption → Str → Bool
has_option_in [] option_id = false
has_option_in (opt ∷ opts) option_id =
    if str_eq opt.id option_id then true else has_option_in opts option_id

-- `Poll.HasOption`
unfoldable pub has_option : Poll → Str → Bool
unfolding has_option_in
has_option p option_id = has_option_in p.options option_id

-- `Poll.IsExpired`
unfoldable pub is_expired : Poll → Time → Bool
is_expired p now = elim p.expires_at [ none ↦ false | some t ↦ not (ltb now t) ]

-- `Poll.AcceptsVotes`
unfoldable pub accepts_votes : Poll → Time → Bool
unfolding is_expired
accepts_votes p now = is_active p.status && not (is_expired p now)

-- `Poll.EffectiveStatus`
unfoldable pub effective_status : Poll → Time → PollStatus
unfolding is_expired
effective_status p now =
    if is_active p.status && is_expired p now then PollStatus.closed else p.status

-- `Poll.OptionIDs`
pub option_ids : Poll → List Str
option_ids p = map (λ o. o.id) p.options
