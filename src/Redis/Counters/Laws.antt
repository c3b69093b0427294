-- ===== src/Redis/Counters/Laws.antt =====
-- The Redis client keeps the promises of `LiveCounters` (backend/internal/redis/counters.go).
use live_polling.Prelude.{
  ◌≡◌, refl, sym, ap, subst, ◌∙◌, ◌⊎◌, inl, inr, Bool, true, false, Option, none, some, [], ◌∷◌,
  arith, Str, codes, str_eq, str_eq_iff, is_empty, Int64, add64, Dict, lookup, insert, Bool-cases,
  append_cancel, drop, if_elim,
}
use live_polling.Apperr.{Cause, Attempt, done, failed}
use live_polling.Strconv.{format_int}
use live_polling.Strconv.Laws.{parse_int-format_int}
use live_polling.Services.Stores.{Bumped, count_or_zero}
use live_polling.Redis.Server.{Server, Trip, delivered, unsent, unanswered, StartsAt}
use live_polling.Redis.Counters.{
  results_key, results_ttl, cold_key, parse_counts, read_hash, answered, call, counted,
  increment_if_warm, increment_option, warmth,
}
use live_polling.Redis.Counters.Parsing.{Written, insert-Written, StartsAt-count}

pub results_key_ne :
    (j k : Str) → str_eq j k ≡ false → str_eq (results_key j) (results_key k) ≡ false
unfolding results_key
results_key_ne j k h = elim (Bool-cases (str_eq (results_key j) (results_key k))) [
  | inr ne ↦ ne
  | inl same ↦
      let e : j ≡ k =
        append_cancel (codes ":results") j k (ap (drop 5) ((str_eq_iff _ _).0 same)) in
      ground (arith, str_eq_iff j k, e)
]

read_hash-insert :
    (k v : Str) (h : Dict Str) → read_hash (insert k v h) ≡ parse_counts (insert k v h)
unfolding read_hash
read_hash-insert k v [] = refl
read_hash-insert k v ((j, w) ∷ h) = ground arith

-- One more vote for an option in a hash that exists.
bump-read_hash :
    (o : Str) (n m : Int64) (h : Dict Str)
    → is_empty h ≡ false
    → StartsAt (lookup o h) m
    → n ≡ add64 m 1
    → Bumped o (read_hash h) (read_hash (insert o (format_int n) h))
unfolding read_hash
bump-read_hash o n m [] e start is = cc
bump-read_hash o n m (f ∷ h) e start is = rw (read_hash-insert o (format_int n) (f ∷ h)) (
    bumped (parse_counts (f ∷ h)) _ (λ d held. StartsAt-count o m (f ∷ h) d held start)
      (insert-Written o (format_int n) n m (f ∷ h) (parse_int-format_int n (omega (arith, is)))
        start))
  where
    bumped :
        (b a : Option (Dict Int64))
        → ((d : Dict Int64) → b ≡ some d → count_or_zero o d ≡ m)
        → Written o n b a
        → Bumped o b a
    bumped none none c w = tt
    bumped none (some a) c w = w
    bumped (some d) none c w = w
    bumped (some d) (some a) c w = λ x. w x ∙ rw (is, c d refl)

cold-Bumped : (o : Str) (h : Dict Str) → is_empty h ≡ true → Bumped o (read_hash h) (read_hash h)
unfolding read_hash
cold-Bumped o [] e = tt
cold-Bumped o (f ∷ h) e = cc

module _ (s : Server) where
  -- What a reader sees of a poll's counters.
  abbrev pub standing : s.Db → Str → Option (Dict Int64)
  standing d k = read_hash (s.hash d (results_key k))

  -- A request is answered, or fails before the server has run it, or fails afterwards.
  pub call_elim :
      {A : Type 0} (P : Attempt A × s.Db → Type 0) (run : s.Db → Attempt A × s.Db) (d : s.Db)
      → P (run (s.trip d).1)
      → ((c : Cause) → P (failed c, (s.trip d).1))
      → ((c : Cause) → P (failed c, (run (s.trip d).1).1))
      → P (call s run d)
  unfolding call
  call_elim P run d ran unsent_ lost = by_trip (s.trip d).0
    where
      by_trip : (t : Trip) → P (answered s t (run (s.trip d).1) (s.trip d).1)
      by_trip delivered = ran
      by_trip (unsent c) = unsent_ c
      by_trip (unanswered c) = lost c

  -- What the script has done to a poll's counters: one more vote, with a reply, or nothing.
  abbrev Incremented : Str → Str → Option (Dict Int64) → Attempt Int64 × s.Db → Type 0
  Incremented k o b q =
      ((n : Int64) × (q.0 ≡ done n) × Bumped o b (standing q.1 k))
      ⊎ ((c : Cause) × (q.0 ≡ failed c) × (standing q.1 k ≡ b))

  counted-Incremented :
      (k o : Str) (d d' : s.Db) (a : Attempt Int64)
      → is_empty (s.hash d (results_key k)) ≡ false
      → ((n : Int64)
          → a ≡ done n
          → ((m : Int64) × StartsAt (lookup o (s.hash d (results_key k))) m × (n ≡ add64 m 1))
            × (s.hash d' (results_key k) ≡ insert o (format_int n) (s.hash d (results_key k))))
      → ((c : Cause) → a ≡ failed c → s.hash d' (results_key k) ≡ s.hash d (results_key k))
      → Incremented k o (standing d k) (counted s (results_key k) results_ttl a d')
  unfolding counted
  counted-Incremented k o d d' (failed c) some_key yes_ no_ =
      inr (c, refl, ap read_hash (no_ c refl))
  counted-Incremented k o d d' (done n) some_key yes_ no_ =
      let ((m, start, is), written) = yes_ n refl in
      inl (
        n,
        refl,
        subst (λ h. Bumped o (standing d k) (read_hash h))
            (sym
              (s.expire_lem (results_key k) (results_key k) results_ttl d' (omega arith) ∙ written))
            (bump-read_hash o n m (s.hash d (results_key k)) some_key start is),
      )

  -- The script adds the vote to a hash that exists, and makes none.
  increment_if_warm-Incremented :
      (k o : Str) (d : s.Db)
      → Incremented k o (standing d k) (increment_if_warm s (results_key k) o results_ttl d)
  unfolding increment_if_warm
  increment_if_warm-Incremented k o d =
      if_elim (Incremented k o (standing d k)) (s.exists_key (results_key k) d) _ _
        (λ there.
          counted-Incremented k o d _ _ (hash_there there)
            (λ n e. s.hincrby_done (results_key k) o 1 n d e)
            (λ c e. s.hincrby_failed (results_key k) o 1 c d e))
        (λ cold. inl (cold_key, refl, cold-Bumped o (s.hash d (results_key k)) (hash_cold cold)))
    where
      hash_there :
          s.exists_key (results_key k) d ≡ true → is_empty (s.hash d (results_key k)) ≡ false
      hash_there e = ground (arith, s.exists_lem (results_key k) d)

      hash_cold :
          s.exists_key (results_key k) d ≡ false → is_empty (s.hash d (results_key k)) ≡ true
      hash_cold e = ground (arith, s.exists_lem (results_key k) d)

  pub trip_standing : (d : s.Db) (k : Str) → standing (s.trip d).1 k ≡ standing d k
  trip_standing d k = ap read_hash (s.trip_reads d (results_key k))

  -- What the caller of `IncrementOption` may rely on.
  abbrev pub Promised : Str → Str → Option (Dict Int64) → Attempt Bool × s.Db → Type 0
  Promised k o b q =
      ((w : Bool) → q.0 ≡ done w → Bumped o b (standing q.1 k))
      × ((c : Cause) → q.0 ≡ failed c → (standing q.1 k ≡ b) ⊎ Bumped o b (standing q.1 k))

  pub increment_option-Promised :
      (k o : Str) (d : s.Db) → Promised k o (standing d k) (increment_option s k o d)
  unfolding increment_option
  increment_option-Promised k o d =
      call_elim (λ q. Promised k o (standing d k) (warmth s q.0, q.1))
        (increment_if_warm s (results_key k) o results_ttl) d
        (elim ran [
          | inl (n, e, bumped) ↦ ((λ w _. bumped), (λ c _. inr bumped))
          | inr (c, e, same) ↦
              ((λ w h. absurd (not_done c w (ap (warmth s) e) h)), (λ _ _. inl same))
        ])
        (λ c. ((λ w h. cc), (λ _ _. inl (trip_standing d k))))
        (λ c. (
          (λ w h. cc),
          (λ _ _. elim ran [ inl (n, e, bumped) ↦ inr bumped | inr (_, e, same) ↦ inl same ]),
        ))
    where
      ran :
          Incremented k o
            (standing d k)
            (increment_if_warm s (results_key k) o results_ttl (s.trip d).1)
      ran =
          subst
            (λ b.
              Incremented k o b (increment_if_warm s (results_key k) o results_ttl (s.trip d).1))
            (trip_standing d k) (increment_if_warm-Incremented k o (s.trip d).1)

      not_done : {a : Attempt Bool} (c : Cause) (w : Bool) → a ≡ failed c → a ≡ done w → ⊥
      not_done c w e h = cc
