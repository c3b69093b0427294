-- ===== src/Redis/Counters.antt =====
-- The live counters: backend/internal/redis/counters.go, and the keys of client.go.
pub mod Parsing
pub mod Laws
pub mod Filling
use live_polling.Prelude.{
  ℕ, ◌-◌, ◌^◌, Bool, not, Option, none, some, [], ◌∷◌, ◌++◌, map, Str, codes, is_empty, Int64, Dict,
  insert, if◌then◌else◌, ◌==◌,
}
use live_polling.Strconv.{format_int, parse_int}
use live_polling.Apperr.{Attempt, done, failed}
use live_polling.Redis.Server.{Server, Trip, delivered, unsent, unanswered}

-- `resultsKey` and `updatesChannel`
unfoldable pub results_key : Str → Str
results_key poll_id = codes "poll:" ++ poll_id ++ codes ":results"

unfoldable pub updates_channel : Str → Str
updates_channel poll_id = codes "poll:" ++ poll_id ++ codes ":updates"

-- `resultsTTL`, in seconds.
abbrev pub results_ttl : ℕ
results_ttl = 604800

-- `coldKey`, which is -1.
abbrev pub cold_key : Int64
cold_key = 2 ^ 64 - 1

-- One round of the loop of `Results`: a value that is no number makes the whole hash count as cold.
add_count : Str → Option Int64 → Option (Dict Int64) → Option (Dict Int64)
add_count option_id none rest = none
add_count option_id (some n) none = none
add_count option_id (some n) (some counts) = some (insert option_id n counts)

-- The loop. The order in which Go visits the fields does not show.
unfoldable pub parse_counts : Dict Str → Option (Dict Int64)
unfolding add_count
parse_counts [] = some []
parse_counts ((option_id, value) ∷ raw) = add_count option_id (parse_int value) (parse_counts raw)

-- What `Results` makes of the reply of HGETALL.
unfoldable pub read_hash : Dict Str → Option (Dict Int64)
unfolding parse_counts
read_hash [] = none
read_hash (f ∷ raw) = parse_counts (f ∷ raw)

-- The fields and values that `ReplaceResults` writes.
abbrev pub field_values : Dict Int64 → Dict Str
field_values = map (λ e. (e.0, format_int e.1))

module _ (s : Server) where
  answered : {A : Type 0} → Trip → Attempt A × s.Db → s.Db → Attempt A × s.Db
  answered delivered q d = q
  answered (unsent c) q d = (failed c, d)
  answered (unanswered c) q d = (failed c, q.1)

  -- One request of the client: what the server runs, over a connection that can fail.
  unfoldable pub call : {A : Type 0} → (s.Db → Attempt A × s.Db) → s.Db → Attempt A × s.Db
  unfolding answered
  call run d = let (t, d') = s.trip d in answered t (run d') d'

  counted : Str → ℕ → Attempt Int64 → s.Db → Attempt Int64 × s.Db
  counted key ttl (failed c) d = (failed c, d)
  counted key ttl (done n) d = (done n, s.expire key ttl d)

  -- `incrementIfWarmScript`
  unfoldable pub increment_if_warm : Str → Str → ℕ → s.Db → Attempt Int64 × s.Db
  unfolding counted
  increment_if_warm key option_id ttl d =
      let (n, d') = s.hincrby key option_id 1 d in
      if s.exists_key key d then counted key ttl n d' else (done cold_key, d)

  warmth : Attempt Int64 → Attempt Bool
  warmth (failed c) = failed c
  warmth (done n) = done (not (n == cold_key))

  -- `Client.IncrementOption`
  unfoldable pub increment_option : Str → Str → s.Db → Attempt Bool × s.Db
  unfolding call increment_if_warm warmth
  increment_option poll_id option_id d =
      let (r, d') = call (increment_if_warm (results_key poll_id) option_id results_ttl) d in
      (warmth r, d')

  fetch : Str → s.Db → Attempt (Option (Dict Int64)) × s.Db
  fetch key d = (done (read_hash (s.hgetall key d)), d)

  -- `Client.Results`: `done none` is a cold key.
  unfoldable pub results : Str → s.Db → Attempt (Option (Dict Int64)) × s.Db
  unfolding call read_hash fetch
  results poll_id = call (fetch (results_key poll_id))

  -- The transaction of `ReplaceResults`.
  unfoldable pub replace : Str → Dict Int64 → s.Db → s.Db
  replace key counts d =
      if is_empty counts
      then s.del key d
      else s.expire key results_ttl (s.hset key (field_values counts) (s.del key d))

  overwrite : Str → Dict Int64 → s.Db → Attempt (Unit {0}) × s.Db
  overwrite key counts d = (done tt, replace key counts d)

  -- `Client.ReplaceResults`
  unfoldable pub replace_results : Str → Dict Int64 → s.Db → Attempt (Unit {0}) × s.Db
  unfolding call replace overwrite
  replace_results poll_id counts = call (overwrite (results_key poll_id) counts)

  discard : Str → s.Db → Attempt (Unit {0}) × s.Db
  discard key d = (done tt, s.del key d)

  -- `Client.DeleteResults`
  unfoldable pub delete_results : Str → s.Db → Attempt (Unit {0}) × s.Db
  unfolding call discard
  delete_results poll_id = call (discard (results_key poll_id))
