-- ===== src/Redis/Timed/Memory.antt =====
-- A Redis server in memory that keeps the laws of `Timed`. The schedule `trips` gives each round trip
-- and the time that passes before it.
use live_polling.Prelude.{
  ℕ, suc, ◌+◌, ◌≡◌, refl, Option, some, List, [], ◌∷◌, arith, Str, str_eq, if◌then◌else◌,
}
use live_polling.Apperr.{Cause, Attempt, done, failed, done-injective}
use live_polling.Redis.Server.{Trip}
use live_polling.Redis.Timed.{Counter, live, hits_of, deadline_of, expiring, ttl_of, Timed}

pub record Memory : Type 0 where
  pub counters : Str → Option Counter
  pub time : ℕ
  pub trips : List (Trip × ℕ)

abbrev first : List (Trip × ℕ) → Trip × ℕ
first [] = (Trip.delivered, 0)
first (t ∷ ts) = t

abbrev others : List (Trip × ℕ) → List (Trip × ℕ)
others [] = []
others (t ∷ ts) = ts

abbrev pass : Memory → Trip × Memory
pass m =
    let (how, wait) = first m.trips in
    (
      how,
      record {
        counters = λ k. live (m.time + wait) (m.counters k);
        time = m.time + wait;
        trips = others m.trips;
      },
    )

abbrev incr : Str → Memory → Attempt ℕ × Memory
incr k m =
    let n = suc (hits_of (m.counters k)) in
    let c : Counter = record { hits = n; deadline = deadline_of (m.counters k) } in
    (done n, record m { counters = λ j. if str_eq k j then some c else m.counters j })

abbrev pexpire : Str → ℕ → Memory → Memory
pexpire k t m = record m {
  counters = λ j. if str_eq k j then expiring (m.time + t) (m.counters j) else m.counters j;
}

pub incr_counts :
    (k j : Str) (n : ℕ) (m : Memory)
    → (incr k m).0 ≡ done n
    → (n ≡ suc (hits_of (m.counters k)))
      × ((incr k m).1.counters j ≡ (
          if str_eq k j
          then some (record { hits = n; deadline = deadline_of (m.counters k) })
          else m.counters j))
incr_counts k j n m h =
    let is : suc (hits_of (m.counters k)) ≡ n = done-injective h in rw is (refl, refl)

pub incr_succeeds :
    (k j : Str) (c : Cause) (m : Memory)
    → (incr k m).0 ≡ failed c
    → (incr k m).1.counters j ≡ m.counters j
incr_succeeds k j c m h = cc

abbrev pub memory : Timed
memory = record {
  Db = Memory;
  now = λ m. m.time;
  counter = λ m k. m.counters k;
  trip = pass;
  incr = incr;
  pexpire = pexpire;
  pttl = λ k m. ttl_of m.time (m.counters k);
  trip_now = λ m. omega arith;
  trip_lem = λ m k. refl;
  incr_now = λ k m. refl;
  incr_done = incr_counts;
  incr_failed = incr_succeeds;
  pexpire_now = λ k t m. refl;
  pexpire_lem = λ k j t m. refl;
  pttl_lem = λ k m. refl;
}
