-- ===== src/Redis/Timed.antt =====
-- What the rate limiter uses of the Redis server: counters that expire, and the server's clock in
-- milliseconds. The commands are documented at redis.io/commands.
pub mod Memory
use live_polling.Prelude.{
  ℕ, suc, ◌+◌, ◌-◌, ◌^◌, ◌≤◌, ◌≡◌, Option, none, some, Str, str_eq, Int64, leb, if◌then◌else◌,
}
use live_polling.Apperr.{Cause, Attempt, done, failed}
use live_polling.Redis.Server.{Trip}

-- A counter and the instant at which it expires, if it does.
pub record Counter : Type 0 where
  pub hits : ℕ
  pub deadline : Option ℕ

-- What is left of a counter at an instant.
abbrev pub live : ℕ → Option Counter → Option Counter
live now none = none
live now (some c) = elim c.deadline [ none ↦ some c | some t ↦ if leb t now then none else some c ]

abbrev pub hits_of : Option Counter → ℕ
hits_of none = 0
hits_of (some c) = c.hits

abbrev pub deadline_of : Option Counter → Option ℕ
deadline_of none = none
deadline_of (some c) = c.deadline

abbrev pub expiring : ℕ → Option Counter → Option Counter
expiring t none = none
expiring t (some c) = some (record c { deadline = some t })

-- The reply of PTTL as an int64: -2 with no key, -1 with no expiry.
abbrev pub ttl_of : ℕ → Option Counter → Int64
ttl_of now none = 2 ^ 64 - 2
ttl_of now (some c) = elim c.deadline [ none ↦ 2 ^ 64 - 1 | some t ↦ t - now ]

-- `counter d k` is the counter at key `k` now. Time passes between round trips and not within a
-- script. INCR may fail, as it does where the number would overflow.
pub record Timed : Type 1 where
  pub Db : Type 0
  pub now : Db → ℕ
  pub counter : Db → Str → Option Counter
  pub trip : Db → Trip × Db
  pub incr : Str → Db → Attempt ℕ × Db
  pub pexpire : Str → ℕ → Db → Db
  pub pttl : Str → Db → Int64
  pub trip_now : (d : Db) → now d ≤ now (trip d).1
  pub trip_lem : (d : Db) (k : Str) → counter (trip d).1 k ≡ live (now (trip d).1) (counter d k)
  pub incr_now : (k : Str) (d : Db) → now (incr k d).1 ≡ now d
  pub incr_done :
      (k j : Str) (n : ℕ) (d : Db)
      → (incr k d).0 ≡ done n
      → (n ≡ suc (hits_of (counter d k)))
        × (counter (incr k d).1 j ≡ (
            if str_eq k j
            then some (record { hits = n; deadline = deadline_of (counter d k) })
            else counter d j))
  pub incr_failed :
      (k j : Str) (c : Cause) (d : Db)
      → (incr k d).0 ≡ failed c
      → counter (incr k d).1 j ≡ counter d j
  pub pexpire_now : (k : Str) (t : ℕ) (d : Db) → now (pexpire k t d) ≡ now d
  pub pexpire_lem :
      (k j : Str) (t : ℕ) (d : Db)
      → counter (pexpire k t d) j
        ≡ (if str_eq k j then expiring (now d + t) (counter d j) else counter d j)
  pub pttl_lem : (k : Str) (d : Db) → pttl k d ≡ ttl_of (now d) (counter d k)
