-- ===== src/Events.antt =====
-- The realtime event contract: backend/internal/events/events.go. JSON itself is the codec's.
pub mod Laws
pub mod Tests
use live_polling.Prelude.{◌≡◌, List, Str, str_eq, codes, is_empty, Int64, if◌then◌else◌}
use live_polling.Apperr.{Cause, Attempt, done, failed}
use live_polling.Models.{OptionCount, Time}

-- `TypePollResultsUpdated`
abbrev pub type_poll_results_updated : Str
type_poll_results_updated = codes "poll_results_updated"

-- `events.PollResultsUpdated`; its rows are `events.OptionCount`.
pub record PollResultsUpdated : Type 0 where
  pub kind : Str
  pub poll_id : Str
  pub results : List OptionCount
  pub total_votes : Int64
  pub status : Str
  pub timestamp : Time

-- `events.Message`
pub record Message : Type 0 where
  pub poll_id : Str
  pub payload : Str

-- `json.Marshal` and `json.Unmarshal` at this type: what has been written is read back.
pub record Codec : Type 0 where
  pub marshal : PollResultsUpdated → Attempt Str
  pub unmarshal : Str → Attempt PollResultsUpdated
  pub unmarshal-marshal :
      (e : PollResultsUpdated) (bytes : Str) → marshal e ≡ done bytes → unmarshal bytes ≡ done e

-- The default of `Encode`: an event with no type gets the one there is.
with_type : PollResultsUpdated → PollResultsUpdated
with_type e = if is_empty e.kind then record e { kind = type_poll_results_updated } else e

-- `events.Encode`
unfoldable pub encode : Codec → PollResultsUpdated → Attempt Str
unfolding with_type
encode c e = c.marshal (with_type e)

-- The two checks of `Decode` on an event that has been parsed.
checked : PollResultsUpdated → Attempt PollResultsUpdated
checked e =
    if str_eq e.kind type_poll_results_updated
    then (if is_empty e.poll_id then failed (Cause.other 2) else done e)
    else failed (Cause.other 1)

decode_from : Attempt PollResultsUpdated → Attempt PollResultsUpdated
unfolding checked
decode_from (failed c) = failed c
decode_from (done e) = checked e

-- `events.Decode`
unfoldable pub decode : Codec → Str → Attempt PollResultsUpdated
unfolding decode_from
decode c bytes = decode_from (c.unmarshal bytes)
