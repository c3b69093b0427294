-- ===== src/Redis/Limiter/Tests.antt =====
-- The theorems on runs of the limiter at examples.
use live_polling.Prelude.{
  ℕ, ◌≤◌, ◌≡◌, refl, Bool, true, Option, none, some, List, [], ◌∷◌, arith, Str, str_eq, codes,
}
use live_polling.Apperr.{Cause}
use live_polling.Redis.Server.{Trip}
use live_polling.Redis.Timed.Memory.{Memory, memory}
use live_polling.Redis.Timed.{Counter}
use live_polling.Redis.Limiter.{Answer, limit_key, allow, allow_all}
use live_polling.Redis.Limiter.Window.Proper.{IsWindow, allow-IsWindow}
use live_polling.Redis.Limiter.Window.Budget.{allowed, ended, allowed_bound}

abbrev key : Str
key = codes "vote:10.0.0.1"

-- A server with no counters, at the instant 1,000.
abbrev fresh : List (Trip × ℕ) → Memory
fresh ts = record { counters = λ k. none; time = 1000; trips = ts }

-- The reply of the second call is lost, and the fourth comes when the window is nearly over.
abbrev busy : Memory
busy = fresh (
    (Trip.delivered, 0)
    ∷ (Trip.unanswered (Cause.other 1), 1)
    ∷ (Trip.delivered, 2)
    ∷ (Trip.delivered, 50)
    ∷ [])

three_of_four : allowed memory key 3 60 4 busy ≡ 2
unfolding allow_all str_eq allow
three_of_four = refl

next_window :
    allowed memory key 1 60 3
      (fresh ((Trip.delivered, 0) ∷ (Trip.delivered, 59) ∷ (Trip.delivered, 1) ∷ []))
    ≡ 2
unfolding allow_all str_eq allow
next_window = refl

busy-ended : ended memory key 3 60 4 busy ≡ 1053
unfolding allow_all str_eq allow
busy-ended = refl

allowed_bound_example :
    (allowed memory key 3 60 4 busy ≤ 6)
    × (◌≡◌ {A = Option Counter} none none → allowed memory key 3 60 4 busy ≤ 3)
allowed_bound_example = allowed_bound memory key 3 60 4 busy tt (rw busy-ended (omega arith))

allow-IsWindow_example :
    IsWindow memory key 3 60
      (memory.now (allow memory key 3 60 busy).1)
      (memory.counter (allow memory key 3 60 busy).1 (limit_key key))
allow-IsWindow_example = allow-IsWindow memory key 3 60 busy tt

-- A second call of two is refused and told to wait 45 of the 60 milliseconds.
abbrev second : Memory
second = record {
  counters = λ k. some (record { hits = 1; deadline = some 1060 });
  time = 1015;
  trips = [];
}

abbrev refused : Answer
refused = record { allowed = Bool.false; retry_after = 45 }

abbrev waited : Memory
waited = record { counters = λ k. none; time = 1060; trips = [] }

abbrev welcome : Answer
welcome = record { allowed = true; retry_after = 60 }
