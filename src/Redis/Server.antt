-- ===== src/Redis/Server.antt =====
-- The Redis server and the connection to it, as the program uses them.
use live_polling.Prelude.{
  ℕ, ◌<◌, ◌≡◌, Bool, false, not, Option, none, some, [], Str, str_eq, Int64, add64, Dict, Distinct,
  lookup, insert, is_empty,
}
use live_polling.Strconv.{format_int, parse_int}
use live_polling.Apperr.{Cause, Attempt, done, failed}

-- A round trip to the server: the reply comes back, or the request is lost before the server runs
-- it, or the reply is lost afterwards.
pub data Trip : Type 0 where
  delivered : Trip
  unsent : Cause → Trip
  unanswered : Cause → Trip

-- The value that HINCRBY starts from: a missing field counts as zero.
abbrev pub StartsAt : Option Str → Int64 → Type 0
StartsAt none n = n ≡ 0
StartsAt (some v) n = parse_int v ≡ some n

-- `hash d k` is the hash at key `k`, in the order in which its fields came; a key that does not
-- exist has none. Commands on hashes are documented at redis.io/commands.
pub record Server : Type 1 where
  pub Db : Type 0
  pub hash : Db → Str → Dict Str
  pub trip : Db → Trip × Db
  pub exists_key : Str → Db → Bool
  pub hincrby : Str → Str → Int64 → Db → Attempt Int64 × Db
  pub expire : Str → ℕ → Db → Db
  pub hgetall : Str → Db → Dict Str
  pub del : Str → Db → Db
  pub hset : Str → Dict Str → Db → Db
  pub trip_reads : (d : Db) (k : Str) → hash (trip d).1 k ≡ hash d k
  pub exists_lem : (k : Str) (d : Db) → exists_key k d ≡ not (is_empty (hash d k))
  pub hgetall_lem : (k : Str) (d : Db) → hgetall k d ≡ hash d k
  pub expire_lem : (k j : Str) (t : ℕ) (d : Db) → 0 < t → hash (expire k t d) j ≡ hash d j
  -- HINCRBY replies with the new value and writes it in decimal.
  pub hincrby_done :
      (k f : Str) (x n : Int64) (d : Db)
      → (hincrby k f x d).0 ≡ done n
      → ((m : Int64) × StartsAt (lookup f (hash d k)) m × (n ≡ add64 m x))
        × (hash (hincrby k f x d).1 k ≡ insert f (format_int n) (hash d k))
  pub hincrby_failed :
      (k f : Str) (x : Int64) (c : Cause) (d : Db)
      → (hincrby k f x d).0 ≡ failed c
      → hash (hincrby k f x d).1 k ≡ hash d k
  pub hincrby_others :
      (k f j : Str) (x : Int64) (d : Db)
      → str_eq j k ≡ false
      → hash (hincrby k f x d).1 j ≡ hash d j
  pub del_lem : (k : Str) (d : Db) → hash (del k d) k ≡ []
  pub del_others : (k j : Str) (d : Db) → str_eq j k ≡ false → hash (del k d) j ≡ hash d j
  -- HSET on a key that does not exist makes a hash of the fields that it is given, where none of
  -- them is given twice.
  pub hset_lem :
      (k : Str) (fs : Dict Str) (d : Db) → Distinct fs → hash d k ≡ [] → hash (hset k fs d) k ≡ fs
  pub hset_others :
      (k j : Str) (fs : Dict Str) (d : Db) → str_eq j k ≡ false → hash (hset k fs d) j ≡ hash d j
