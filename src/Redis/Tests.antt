-- ===== src/Redis/Tests.antt =====
-- The counters of one poll at examples, on the server in memory.
use live_polling.Prelude.{none, ◌≡◌, refl, some, [], ◌∷◌, str_eq, codes, Dict, Int64, arith}
use live_polling.Strconv.{format_int, parse_int, digits}
use live_polling.Services.Stores.{Holds}
use live_polling.Redis.Memory.{Memory, memory}
use live_polling.Redis.Channels.{poll_id_from_channel, poll_id_from_channel-updates_channel}
use live_polling.Redis.Counters.{updates_channel, results, replace_results, results_key, read_hash}
use live_polling.Redis.Counters.Filling.{results-replace_results}

abbrev two_votes : Dict Int64
two_votes = (codes "a1", 2) ∷ (codes "b2", 0) ∷ []

abbrev cold : Memory
cold = record { hashes = λ k. []; trips = [] }

abbrev warm : Memory
warm = record { hashes = λ k. (codes "a1", codes "2") ∷ (codes "b2", codes "0") ∷ []; trips = [] }

abbrev two_read : Dict Int64
two_read = (codes "b2", 0) ∷ (codes "a1", 2) ∷ []

results-replace_results_example : Holds two_votes (some two_read)
unfolding replace_results results read_hash str_eq results_key parse_int format_int digits
results-replace_results_example =
    results-replace_results memory (codes "p") two_votes cold (some two_read)
      (omega arith, (omega arith, tt)) (refl, (refl, tt)) refl refl

poll_id_from_channel-updates_channel_example :
    poll_id_from_channel (updates_channel (codes "p7")) ≡ some (codes "p7")
poll_id_from_channel-updates_channel_example = poll_id_from_channel-updates_channel (codes "p7")

-- The prefix and the suffix overlap in this channel, and the slice panics.
overlap : poll_id_from_channel (codes "poll:updates") ≡ none
unfolding poll_id_from_channel str_eq
overlap = refl
