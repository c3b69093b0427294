-- ===== src/Redis/Limiter/Window.antt =====
-- What one call of `Allow` does to the window of its key (backend/internal/redis/rate_limit.go).
pub mod Proper
pub mod Budget
pub mod Recovery
use live_polling.Prelude.{
  ℕ, suc, ◌+◌, ◌-◌, ◌≤◌, ◌≡◌, refl, sym, ap, subst, ◌∙◌, ◌⊎◌, inl, inr, Option, some, arith, Str,
  str_eq_refl, Int64, leb, ◌==◌, if◌then◌else◌, if_elim,
}
use live_polling.Apperr.{Cause, Attempt, done, failed}
use live_polling.Redis.Server.{Trip, delivered, unsent, unanswered}
use live_polling.Redis.Timed.{Counter, live, hits_of, deadline_of, ttl_of, Timed}
use live_polling.Redis.Limiter.{
  Answer, limit_key, is_negative, opened, hit, judged, sent_hit, allow,
}

-- The counter after one more hit on what was there.
abbrev pub next_counter : ℕ → ℕ → Option Counter → Counter
next_counter now window c = record {
  hits = suc (hits_of c);
  deadline = if suc (hits_of c) == 1 then some (now + window) else deadline_of c;
}

abbrev pub answer_of : ℕ → ℕ → ℕ → Option Counter → Answer
answer_of limit now window c =
    let ttl = ttl_of now (some (next_counter now window c)) in
    record {
      allowed = leb (suc (hits_of c)) limit;
      retry_after = if is_negative ttl then window else ttl;
    }

-- What a call may do to the counter `c` of its key: it counts one hit and answers by it, or it fails
-- and has counted one hit or none.
abbrev pub Called : ℕ → ℕ → ℕ → Option Counter → Attempt Answer → Option Counter → Type 0
Called limit now window c a c' =
    ((a ≡ done (answer_of limit now window c)) × (c' ≡ some (next_counter now window c)))
    ⊎ ((x : Cause) × (a ≡ failed x) × ((c' ≡ c) ⊎ (c' ≡ some (next_counter now window c))))

reply_eq :
    {a a' : ℕ} {b b' : Int64}
    → a ≡ a'
    → b ≡ b'
    → ◌≡◌ {A = Attempt (ℕ × Int64)} (done (a, b)) (done (a', b'))
reply_eq p q = cc

module _ (s : Timed) where
  -- What the script does to the counter, where it has run.
  abbrev Scripted : ℕ → ℕ → Option Counter → Attempt (ℕ × Int64) → Option Counter → Type 0
  Scripted now window c a c' =
      ((a ≡ done (suc (hits_of c), ttl_of now (some (next_counter now window c))))
        × (c' ≡ some (next_counter now window c)))
      ⊎ ((x : Cause) × (a ≡ failed x) × (c' ≡ c))

  opened-Scripted :
      (k : Str) (window : ℕ) (a : Attempt ℕ) (d d₀ : s.Db)
      → s.now d ≡ s.now d₀
      → ((n : ℕ)
          → a ≡ done n
          → (n ≡ suc (hits_of (s.counter d₀ k)))
            × (s.counter d k ≡ some (record { hits = n; deadline = deadline_of (s.counter d₀ k) })))
      → ((x : Cause) → a ≡ failed x → s.counter d k ≡ s.counter d₀ k)
      → Scripted
          (s.now d₀)
          window
          (s.counter d₀ k)
          (opened s k window a d).0
          (s.counter (opened s k window a d).1 k)
        × (s.now (opened s k window a d).1 ≡ s.now d₀)
  unfolding opened
  opened-Scripted k window (failed x) d d₀ same counted kept = (inr (x, refl, kept x refl), same)
  opened-Scripted k window (done n) d d₀ same counted kept =
      (inl (reply_eq is (s.pttl_lem k e ∙ rw (ended.1, ended.0) refl), ended.0), ended.1)
    where
      is : n ≡ suc (hits_of (s.counter d₀ k))
      is = (counted n refl).0

      next : Counter
      next = next_counter (s.now d₀) window (s.counter d₀ k)

      e : s.Db
      e = if n == 1 then s.pexpire k window d else d

      stored : s.counter d k ≡ some (record { hits = n; deadline = deadline_of (s.counter d₀ k) })
      stored = (counted n refl).1

      ended : (s.counter e k ≡ some next) × (s.now e ≡ s.now d₀)
      ended =
          if_elim (λ x. (s.counter x k ≡ some next) × (s.now x ≡ s.now d₀)) (n == 1) _ _
            (λ first. (
              ground (arith, s.pexpire_lem k k window d, str_eq_refl k, stored, is, same),
              s.pexpire_now k window d ∙ same,
            ))
            (λ later. (ground (arith, stored, is), same))

  hit-Scripted :
      (k : Str) (window : ℕ) (d : s.Db)
      → Scripted
          (s.now d)
          window
          (s.counter d k)
          (hit s k window d).0
          (s.counter (hit s k window d).1 k)
        × (s.now (hit s k window d).1 ≡ s.now d)
  unfolding hit
  hit-Scripted k window d =
      opened-Scripted k window (s.incr k d).0 (s.incr k d).1 d (s.incr_now k d)
        (λ n e. let (is, at) = s.incr_done k k n d e in (is, at ∙ rw (str_eq_refl k) refl))
        (λ x e. s.incr_failed k k x d e)

  sent_hit-Called :
      (how : Trip) (k : Str) (limit window : ℕ) (d : s.Db)
      → Called limit
          (s.now d)
          window
          (s.counter d k)
          (judged s limit window (sent_hit s how k window d).0)
          (s.counter (sent_hit s how k window d).1 k)
        × (s.now (sent_hit s how k window d).1 ≡ s.now d)
  unfolding sent_hit judged
  sent_hit-Called delivered k limit window d =
      let (ran, same) = hit-Scripted k window d in
      (
        elim ran [
          | inl (e, at) ↦ inl (ap (judged s limit window) e, at)
          | inr (x, e, at) ↦ inr (x, ap (judged s limit window) e, inl at)
        ],
        same,
      )
  sent_hit-Called (unsent x) k limit window d = (inr (x, refl, inl refl), refl)
  sent_hit-Called (unanswered x) k limit window d =
      let (ran, same) = hit-Scripted k window d in
      (
        elim ran [ inl (e, at) ↦ inr (x, refl, inr at) | inr (y, e, at) ↦ inr (x, refl, inl at) ],
        same,
      )

  -- One call of `Allow`, over any Redis server that keeps the documented laws: time may pass first,
  -- then it does to the key's counter, as far as that is alive, what `Called` says.
  pub allow-Called :
      (key : Str) (limit window : ℕ) (d : s.Db)
      → let now = s.now (allow s key limit window d).1 in
        Called limit now window
          (live now (s.counter d (limit_key key)))
          (allow s key limit window d).0
          (s.counter (allow s key limit window d).1 (limit_key key))
        × (s.now d ≤ now)
  unfolding allow
  allow-Called key limit window d =
      let d₁ = (s.trip d).1 in
      let (called, same) = sent_hit-Called (s.trip d).0 (limit_key key) limit window d₁ in
      (
        subst
            (λ t.
              Called limit t window (live t (s.counter d (limit_key key)))
                (allow s key limit window d).0
                (s.counter (allow s key limit window d).1 (limit_key key)))
            (sym same)
            (subst
              (λ c.
                Called limit (s.now d₁) window c (allow s key limit window d).0
                  (s.counter (allow s key limit window d).1 (limit_key key)))
              (s.trip_lem d (limit_key key)) called),
        rw same (s.trip_now d),
      )
