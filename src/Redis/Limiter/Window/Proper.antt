-- ===== src/Redis/Limiter/Window/Proper.antt =====
-- What a call leaves of the counter of its key (backend/internal/redis/rate_limit.go).
use live_polling.Prelude.{
  ℕ, ◌+◌, ◌≤◌, ◌≡◌, refl, sym, subst, inl, inr, Option, none, some, arith, Str, leb, if_elim,
}
use live_polling.Apperr.{Attempt}
use live_polling.Redis.Timed.{Counter, live, Timed}
use live_polling.Redis.Limiter.{Answer, limit_key, allow}
use live_polling.Redis.Limiter.Window.{next_counter, Called, allow-Called}

module _ (s : Timed) (key : Str) (limit window : ℕ) where
  abbrev call : s.Db → Attempt Answer × s.Db
  call = allow s key limit window

  abbrev at_key : s.Db → Option Counter
  at_key d = s.counter d (limit_key key)

  -- A counter is of a window where it has counted a hit and expires within a window's time.
  abbrev pub IsWindow : ℕ → Option Counter → Type 0
  IsWindow now none = Unit
  IsWindow now (some c) = (1 ≤ c.hits) × ((t : ℕ) × (c.deadline ≡ some t) × (t ≤ now + window))

  later-IsWindow :
      (now now' : ℕ) (c : Option Counter)
      → now ≤ now'
      → IsWindow now c
      → IsWindow now' (live now' c)
  later-IsWindow now now' none le proper = tt
  later-IsWindow now now' (some c) le (used, (t, until, soon)) = rw until (
      if_elim (IsWindow now') (leb t now') none (some c) (λ _. tt)
        (λ _. (used, (t, until, omega arith))))

  next-IsWindow :
      (now : ℕ) (c : Option Counter)
      → IsWindow now c
      → IsWindow now (some (next_counter now window c))
  next-IsWindow now none proper = (omega arith, (now + window, refl, omega arith))
  next-IsWindow now (some c) (used, (t, until, soon)) = (omega arith, (t, ground arith, soon))

  -- Where the key has no counter, or one that has counted a hit and expires within a window's time,
  -- that is so after every call of `Allow`, failed ones included.
  pub allow-IsWindow :
      (d : s.Db) → IsWindow (s.now d) (at_key d) → IsWindow (s.now (call d).1) (at_key (call d).1)
  allow-IsWindow d proper = elim called.0 [
    | inl (_, after) ↦ moved after (next-IsWindow now _ alive)
    | inr (_, _, inl after) ↦ moved after alive
    | inr (_, _, inr after) ↦ moved after (next-IsWindow now _ alive)
  ]
    where
      now : ℕ
      now = s.now (call d).1

      called :
          Called limit now window (live now (at_key d)) (call d).0 (at_key (call d).1)
          × (s.now d ≤ now)
      called = allow-Called s key limit window d

      alive : IsWindow now (live now (at_key d))
      alive = later-IsWindow (s.now d) now (at_key d) called.1 proper

      moved :
          {c : Option Counter}
          → at_key (call d).1 ≡ c
          → IsWindow now c
          → IsWindow now (at_key (call d).1)
      moved e h = subst (IsWindow now) (sym e) h
