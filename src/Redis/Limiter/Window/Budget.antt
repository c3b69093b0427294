-- ===== src/Redis/Limiter/Window/Budget.antt =====
-- How many calls a window lets through, and that it ends (backend/internal/redis/rate_limit.go).
use live_polling.Prelude.{
  ℕ, zero, suc, ◌+◌, ◌-◌, ◌<◌, ◌≤◌, ◌≡◌, refl, ap, subst, ◌∙◌, ◌⊎◌, inl, inr, Bool, false, Option,
  none, some, arith, Str, leb, if◌then◌else◌, count, Bool-cases, Option-cases,
}
use live_polling.Apperr.{Attempt, done, failed}
use live_polling.Redis.Timed.{Counter, live, hits_of, Timed}
use live_polling.Redis.Limiter.{Answer, limit_key, allow, allow_all}
use live_polling.Redis.Limiter.Window.{next_counter, allow-Called}
use live_polling.Redis.Limiter.Window.Proper.{IsWindow}

-- The call was answered, and within the limit.
abbrev pub is_allowed : Attempt Answer → Bool
is_allowed (done a) = a.allowed
is_allowed (failed _) = false

before_later : (a b c w : ℕ) → b ≤ c → a < b + w → a < c + w
before_later a b c w h k = omega arith

module _ (s : Timed) (key : Str) (limit window : ℕ) where
  abbrev call : s.Db → Attempt Answer × s.Db
  call = allow s key limit window

  abbrev at_key : s.Db → Option Counter
  at_key d = s.counter d (limit_key key)

  -- The instant after `n` calls, and how many of them were allowed.
  abbrev pub ended : ℕ → s.Db → ℕ
  ended n d = s.now (allow_all s n key limit window d).1

  abbrev pub allowed : ℕ → s.Db → ℕ
  allowed n d = count is_allowed (allow_all s n key limit window d).0

  later : (n : ℕ) (d : s.Db) → s.now d ≤ ended n d
  unfolding allow_all
  later zero d = omega arith
  later (suc n) d = omega (arith, (allow-Called s key limit window d).1, later n (call d).1)

  -- One call, by what is alive of the counter when it is served.
  abbrev Stepped : s.Db → Option Counter → Type 0
  Stepped d c =
      let d₁ = (call d).1 in
      ((is_allowed (call d).0 ≡ leb (suc (hits_of c)) limit)
        × (at_key d₁ ≡ some (next_counter (s.now d₁) window c)))
      ⊎ ((is_allowed (call d).0 ≡ false)
          × ((at_key d₁ ≡ c) ⊎ (at_key d₁ ≡ some (next_counter (s.now d₁) window c))))

  stepped : (d : s.Db) → Stepped d (live (s.now (call d).1) (at_key d))
  stepped d = elim (allow-Called s key limit window d).0 [
    | inl (e, after) ↦ inl (ap is_allowed e, after)
    | inr (x, e, after) ↦ inr (ap is_allowed e, after)
  ]

  allowed-suc :
      (n : ℕ) (d : s.Db)
      → allowed (suc n) d
        ≡ (if is_allowed (call d).0 then suc (allowed n (call d).1) else allowed n (call d).1)
  unfolding allow_all
  allowed-suc n d = refl

  allowed-zero : (d : s.Db) → allowed 0 d ≡ 0
  unfolding allow_all
  allowed-zero d = refl

  ended-suc : (n : ℕ) (d : s.Db) → ended (suc n) d ≡ ended n (call d).1
  unfolding allow_all
  ended-suc n d = refl

  -- While the window that holds `c` lasts, no more calls are allowed than it has left.
  spent :
      (n : ℕ) (d : s.Db) (c : Counter) (end : ℕ)
      → at_key d ≡ some c
      → c.deadline ≡ some end
      → 1 ≤ c.hits
      → ended n d < end
      → allowed n d ≤ limit - c.hits
  spent zero d c end at until used early = rw (allowed-zero d) (omega arith)
  spent (suc n) d c end at until used early =
      rw (allowed-suc n d) (elim (subst (Stepped d) alive (stepped d)) [
        | inl (e, after) ↦
            ground (arith, e, spent n (call d).1 next end after until' (omega arith) early')
        | inr (e, inl after) ↦ rw e (spent n (call d).1 c end after until used early')
        | inr (e, inr after) ↦
            rw e (omega (arith, spent n (call d).1 next end after until' (omega arith) early'))
      ])
    where
      now : ℕ
      now = s.now (call d).1

      next : Counter
      next = next_counter now window (some c)

      early' : ended n (call d).1 < end
      early' = subst (λ t. t < end) (ended-suc n d) early

      alive : live now (at_key d) ≡ some c
      alive = ground (arith, at, until, early', later n (call d).1)

      until' : next.deadline ≡ some end
      until' = ground arith

  -- With no window open, a run that is shorter than a window is allowed `limit` calls.
  unspent :
      (n : ℕ) (d : s.Db)
      → live (s.now (call d).1) (at_key d) ≡ none
      → ended n d < s.now d + window
      → allowed n d ≤ limit
  unspent zero d gone short = rw (allowed-zero d) (omega arith)
  unspent (suc n) d gone short = rw (allowed-suc n d) (elim (subst (Stepped d) gone (stepped d)) [
    | inl (e, after) ↦
        ground (arith, e, spent n (call d).1 opened end after refl (omega arith) short')
    | inr (e, inl after) ↦ rw e (unspent n (call d).1 (ap (live _) after) short')
    | inr (e, inr after) ↦
        rw e (omega (arith, spent n (call d).1 opened end after refl (omega arith) short'))
  ])
    where
      now : ℕ
      now = s.now (call d).1

      opened : Counter
      opened = next_counter now window none

      end : ℕ
      end = now + window

      elapsed : s.now d ≤ now
      elapsed = (allow-Called s key limit window d).1

      short' : ended n (call d).1 < end
      short' =
          before_later _ _ _ window elapsed
            (subst (λ t. t < s.now d + window) (ended-suc n d) short)

  bounded :
      (n : ℕ) (d : s.Db) (c : Counter)
      → at_key d ≡ some c
      → 1 ≤ c.hits
      → (end : ℕ) → c.deadline ≡ some end
      → ended n d < s.now d + window
      → allowed n d ≤ (limit - c.hits) + limit
  bounded zero d c at used end until short = rw (allowed-zero d) (omega arith)
  bounded (suc n) d c at used end until short = elim (Bool-cases (leb end now)) [
    | inl over ↦ omega (arith, unspent (suc n) d (ap (live now) at ∙ rw (until, over) refl) short)
    | inr lasting ↦ rw (allowed-suc n d) (elim (subst (Stepped d) (alive lasting) (stepped d)) [
      | inl (e, after) ↦
          ground (arith, e, bounded n (call d).1 next after (omega arith) end until' short')
      | inr (e, inl after) ↦ rw e (bounded n (call d).1 c after used end until short')
      | inr (e, inr after) ↦
          rw e (le_left (bounded n (call d).1 next after (omega arith) end until' short'))
    ])
  ]
    where
      now : ℕ
      now = s.now (call d).1

      next : Counter
      next = next_counter now window (some c)

      alive : leb end now ≡ false → live now (at_key d) ≡ some c
      alive lasting = ground (arith, at, until, lasting)

      until' : next.deadline ≡ some end
      until' = ground arith

      le_left : {a : ℕ} → a ≤ (limit - suc c.hits) + limit → a ≤ (limit - c.hits) + limit
      le_left h = omega arith

      short' : ended n (call d).1 < now + window
      short' =
          before_later _ _ _ window (allow-Called s key limit window d).1
            (subst (λ t. t < s.now d + window) (ended-suc n d) short)

  -- In a run of calls for one key that takes less than a window and starts with no counter at the key
  -- or with one that has counted a hit and expires within a window's time, at most twice the limit are
  -- allowed, and at most the limit where it starts with no counter, also where calls fail.
  pub allowed_bound :
      (n : ℕ) (d : s.Db)
      → IsWindow s key limit window (s.now d) (at_key d)
      → ended n d < s.now d + window
      → (allowed n d ≤ limit + limit) × (at_key d ≡ none → allowed n d ≤ limit)
  allowed_bound n d proper short = (
    elim (Option-cases (at_key d)) [
      | inl gone ↦ omega (arith, first gone)
      | inr (c, at) ↦
          let (used, (end, until, _)) = subst (IsWindow s key limit window (s.now d)) at proper in
          twice c.hits (bounded n d c at used end until short)
    ],
    first,
  )
    where
      first : at_key d ≡ none → allowed n d ≤ limit
      first gone = unspent n d (ap (live _) gone) short

      twice : (h : ℕ) → allowed n d ≤ (limit - h) + limit → allowed n d ≤ limit + limit
      twice h le = omega arith
