-- ===== src/Redis/Memory.antt =====
-- A Redis server in memory that keeps the laws of `Server`. Time does not pass in it; the schedule
-- `trips` says what becomes of each round trip, and once it is at its end all of them are delivered.
use live_polling.Prelude.{
  ℕ, zero, suc, ◌<◌, ◌≡◌, refl, ap, ◌∙◌, false, not, Option, none, some, List, [], ◌∷◌, arith, Str,
  str_eq, str_eq_refl, str_eq_sym, Int64, add64, Dict, lookup, insert, is_empty, if◌then◌else◌,
}
use live_polling.Strconv.{format_int, parse_int}
use live_polling.Apperr.{Cause, Attempt, done, failed, done-injective}
use live_polling.Redis.Server.{Trip, StartsAt, Server}

pub record Memory : Type 0 where
  pub hashes : Str → Dict Str
  pub trips : List Trip

abbrev first : List Trip → Trip
first [] = Trip.delivered
first (t ∷ ts) = t

abbrev others : List Trip → List Trip
others [] = []
others (t ∷ ts) = ts

abbrev set : Str → Dict Str → Memory → Memory
set k h m = record m { hashes = λ j. if str_eq k j then h else m.hashes j }

abbrev put_all : Dict Str → Dict Str → Dict Str
put_all [] h = h
put_all ((f, v) ∷ fs) h = put_all fs (insert f v h)

-- The value of a field as a number: zero where there is none.
abbrev base : Option Str → Option Int64
base none = some 0
base (some v) = parse_int v

abbrev hincrby_from : Str → Str → Int64 → Option Int64 → Memory → Attempt Int64 × Memory
hincrby_from k f x none m = (failed (Cause.other 1), m)
hincrby_from k f x (some n) m =
    (done (add64 n x), set k (insert f (format_int (add64 n x)) (m.hashes k)) m)

abbrev hincrby : Str → Str → Int64 → Memory → Attempt Int64 × Memory
hincrby k f x m = hincrby_from k f x (base (lookup f (m.hashes k))) m

abbrev expire : Str → ℕ → Memory → Memory
expire k zero m = set k [] m
expire k (suc t) m = m

abbrev hset : Str → Dict Str → Memory → Memory
hset k fs m = set k (if is_empty (m.hashes k) then fs else put_all fs (m.hashes k)) m

pub set_same : (k : Str) (h : Dict Str) (m : Memory) → (set k h m).hashes k ≡ h
set_same k h m = rw (str_eq_refl k) refl

pub set_other :
    (k j : Str) (h : Dict Str) (m : Memory) → str_eq j k ≡ false → (set k h m).hashes j ≡ m.hashes j
set_other k j h m ne = ground (arith, str_eq_sym j k)

base-StartsAt : (o : Option Str) (n : Int64) → base o ≡ some n → StartsAt o n
base-StartsAt none n h = ground arith
base-StartsAt (some v) n h = h

pub hincrby_done :
    (k f : Str) (x n : Int64) (o : Option Int64) (m : Memory)
    → base (lookup f (m.hashes k)) ≡ o
    → (hincrby_from k f x o m).0 ≡ done n
    → ((i : Int64) × StartsAt (lookup f (m.hashes k)) i × (n ≡ add64 i x))
      × ((hincrby_from k f x o m).1.hashes k ≡ insert f (format_int n) (m.hashes k))
hincrby_done k f x n none m e h = cc
hincrby_done k f x n (some i) m e h =
    let is : add64 i x ≡ n = done-injective h in
    (
      (i, base-StartsAt _ i e, ground arith),
      set_same k _ m ∙ ap (λ z. insert f (format_int z) (m.hashes k)) is,
    )

pub hincrby_failed :
    (k f : Str) (x : Int64) (c : Cause) (o : Option Int64) (m : Memory)
    → (hincrby_from k f x o m).0 ≡ failed c
    → (hincrby_from k f x o m).1.hashes k ≡ m.hashes k
hincrby_failed k f x c none m h = refl
hincrby_failed k f x c (some i) m h = cc

pub hincrby_others :
    (k f j : Str) (x : Int64) (o : Option Int64) (m : Memory)
    → str_eq j k ≡ false
    → (hincrby_from k f x o m).1.hashes j ≡ m.hashes j
hincrby_others k f j x none m ne = refl
hincrby_others k f j x (some i) m ne = set_other k j _ m ne

pub expire_lem : (k j : Str) (t : ℕ) (m : Memory) → 0 < t → (expire k t m).hashes j ≡ m.hashes j
expire_lem k j zero m pos = absurd (omega arith)
expire_lem k j (suc t) m pos = refl

abbrev pub memory : Server
memory = record {
  Db = Memory;
  hash = λ m k. m.hashes k;
  trip = λ m. (first m.trips, record m { trips = others m.trips });
  exists_key = λ k m. not (is_empty (m.hashes k));
  hincrby = hincrby;
  expire = expire;
  hgetall = λ k m. m.hashes k;
  del = λ k m. set k [] m;
  hset = hset;
  trip_reads = λ m k. refl;
  exists_lem = λ k m. refl;
  hgetall_lem = λ k m. refl;
  expire_lem = expire_lem;
  hincrby_done = λ k f x n m. hincrby_done k f x n _ m refl;
  hincrby_failed = λ k f x c m. hincrby_failed k f x c _ m;
  hincrby_others = λ k f j x m. hincrby_others k f j x _ m;
  del_lem = λ k m. set_same k [] m;
  del_others = λ k j m. set_other k j [] m;
  hset_lem = λ k fs m once e. set_same k _ m ∙ rw e refl;
  hset_others = λ k j fs m. set_other k j _ m;
}
