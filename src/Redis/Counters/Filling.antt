-- ===== src/Redis/Counters/Filling.antt =====
-- The Redis client fills the interface `LiveCounters` of the services
-- (backend/internal/redis/counters.go).
use live_polling.Prelude.{
  ◌^◌, ◌<◌, ◌≡◌, refl, sym, ap, subst, ◌∙◌, ◌⊎◌, inl, inr, false, Option, [], ◌∷◌, arith, Str,
  str_eq, is_empty, Int64, Dict, Distinct, All, if_elim,
}
use live_polling.Apperr.{Cause, Attempt, done, failed, done-injective}
use live_polling.Services.Stores.{LiveCounters, Holds}
use live_polling.Redis.Server.{Server}
use live_polling.Redis.Counters.{
  results_key, results_ttl, read_hash, field_values, counted, increment_if_warm, increment_option,
  results, fetch, overwrite, replace, replace_results, delete_results,
}
use live_polling.Redis.Counters.Parsing.{field_values_lem, field_values-Distinct}
use live_polling.Redis.Counters.Laws.{
  standing, call_elim, increment_option-Promised, trip_standing, results_key_ne,
}

module _ (s : Server) where
  pub results_done :
      (k : Str) (d : s.Db) (c : Option (Dict Int64))
      → (results s k d).0 ≡ done c
      → c ≡ standing s d k
  unfolding results
  results_done k d c =
      call_elim s (λ q. q.0 ≡ done c → c ≡ standing s d k) (fetch s (results_key k)) d
        (λ h.
          sym (done-injective h)
          ∙ ap read_hash (s.hgetall_lem (results_key k) (s.trip d).1)
          ∙ trip_standing s d k)
        (λ _ h. cc) (λ _ h. cc)

  pub results_reads : (k j : Str) (d : s.Db) → standing s (results s k d).1 j ≡ standing s d j
  unfolding results
  results_reads k j d =
      call_elim s {A = Option (Dict Int64)} (λ q. standing s q.1 j ≡ standing s d j)
        (fetch s (results_key k)) d (trip_standing s d j) (λ _. trip_standing s d j)
        (λ _. trip_standing s d j)

  counted_others :
      (k o j : Str) (a : Attempt Int64) (d : s.Db)
      → standing s (counted s (results_key k) results_ttl a d).1 j ≡ standing s d j
  unfolding counted
  counted_others k o j (failed c) d = refl
  counted_others k o j (done n) d =
      ap read_hash (s.expire_lem (results_key k) (results_key j) results_ttl d (omega arith))

  script_others :
      (k o j : Str) (d : s.Db)
      → str_eq j k ≡ false
      → standing s (increment_if_warm s (results_key k) o results_ttl d).1 j ≡ standing s d j
  unfolding increment_if_warm
  script_others k o j d ne =
      if_elim {A = Attempt Int64 × s.Db} (λ q. standing s q.1 j ≡ standing s d j)
        (s.exists_key (results_key k) d) _ _
        (λ _.
          counted_others k o j _ _
          ∙ ap read_hash
              (s.hincrby_others (results_key k) o (results_key j) 1 d (results_key_ne j k ne)))
        (λ _. refl)

  pub increment_others :
      (k o j : Str) (d : s.Db)
      → str_eq j k ≡ false
      → standing s (increment_option s k o d).1 j ≡ standing s d j
  unfolding increment_option
  increment_others k o j d ne =
      call_elim s {A = Int64} (λ q. standing s q.1 j ≡ standing s d j)
        (increment_if_warm s (results_key k) o results_ttl) d
        (script_others k o j _ ne ∙ trip_standing s d j) (λ _. trip_standing s d j)
        (λ _. script_others k o j _ ne ∙ trip_standing s d j)

  replace-Holds :
      (k : Str) (c : Dict Int64) (d : s.Db)
      → All (λ e. e.1 < 2 ^ 64) c
      → Distinct c
      → Holds c (standing s (replace s (results_key k) c d) k)
  unfolding replace
  replace-Holds k c d fits once =
      if_elim (λ (d' : s.Db). Holds c (standing s d' k)) (is_empty c) _ _
        (λ e. rw (s.del_lem (results_key k) d) (unfold read_hash in e)) (λ e. full c e fits once)
    where
      full :
          (x : Dict Int64)
          → is_empty x ≡ false
          → All (λ e. e.1 < 2 ^ 64) x
          → Distinct x
          → Holds x (
              standing s
                (s.expire
                  (results_key k)
                  results_ttl
                  (s.hset (results_key k) (field_values x) (s.del (results_key k) d)))
                k)
      full [] e fits once = cc
      full (f ∷ x) e fits once =
          let (d', read, same) = field_values_lem (f ∷ x) fits in
          subst (λ h. Holds (f ∷ x) (read_hash h))
            (sym (
              s.expire_lem (results_key k) (results_key k) results_ttl _ (omega arith)
              ∙ s.hset_lem (results_key k) _ _ (field_values-Distinct (f ∷ x) once)
                  (s.del_lem (results_key k) d)))
            (unfold read_hash in subst (Holds (f ∷ x)) (sym read) same)

  replace_others :
      (k j : Str) (c : Dict Int64) (d : s.Db)
      → str_eq j k ≡ false
      → standing s (replace s (results_key k) c d) j ≡ standing s d j
  unfolding replace
  replace_others k j c d ne =
      let other : str_eq (results_key j) (results_key k) ≡ false = results_key_ne j k ne in
      if_elim (λ (d' : s.Db). standing s d' j ≡ standing s d j) (is_empty c) _ _
        (λ _. ap read_hash (s.del_others _ _ d other))
        (λ _. ap read_hash (
          s.expire_lem _ _ results_ttl _ (omega arith)
          ∙ s.hset_others _ _ _ _ other
          ∙ s.del_others _ _ d other))

  pub replace_results_lem :
      (k : Str) (c : Dict Int64) (d : s.Db)
      → All (λ e. e.1 < 2 ^ 64) c
      → Distinct c
      → Holds c (standing s (replace_results s k c d).1 k)
        ⊎ ((x : Cause) × ((replace_results s k c d).0 ≡ failed x)
            × (standing s (replace_results s k c d).1 k ≡ standing s d k))
  unfolding replace_results
  replace_results_lem k c d fits once =
      call_elim s {A = Unit {0}}
        (λ q.
          Holds c (standing s q.1 k)
          ⊎ ((x : Cause) × (q.0 ≡ failed x) × (standing s q.1 k ≡ standing s d k)))
        (overwrite s (results_key k) c) d (inl (replace-Holds k c _ fits once))
        (λ x. inr (x, refl, trip_standing s d k)) (λ _. inl (replace-Holds k c _ fits once))

  -- Where no key stands twice and the numbers fit 64 bits, a `Results` that returns right after a
  -- `ReplaceResults` that returned without an error reads the counters that were written: it is a miss for none, and otherwise it gives every field
  -- its number and no other field.
  pub results-replace_results :
      (k : Str) (c : Dict Int64) (d : s.Db) (read : Option (Dict Int64))
      → All (λ e. e.1 < 2 ^ 64) c
      → Distinct c
      → (replace_results s k c d).0 ≡ done tt
      → (results s k (replace_results s k c d).1).0 ≡ done read
      → Holds c read
  results-replace_results k c d read fits once wrote seen =
      let same : read ≡ standing s (replace_results s k c d).1 k =
        results_done k (replace_results s k c d).1 read seen in
      subst (Holds c) (sym same) (elim (replace_results_lem k c d fits once) [
        | inl held ↦ held
        | inr (x, fail, _) ↦ absurd (apart x (sym wrote ∙ fail))
      ])
    where
      apart : (x : Cause) → ◌≡◌ {A = Attempt (Unit {0})} (done tt) (failed x) → ⊥
      apart x h = cc

  pub replace_results_others :
      (k j : Str) (c : Dict Int64) (d : s.Db)
      → str_eq j k ≡ false
      → standing s (replace_results s k c d).1 j ≡ standing s d j
  unfolding replace_results
  replace_results_others k j c d ne =
      call_elim s {A = Unit {0}} (λ q. standing s q.1 j ≡ standing s d j)
        (overwrite s (results_key k) c) d (replace_others k j c _ ne ∙ trip_standing s d j)
        (λ _. trip_standing s d j) (λ _. replace_others k j c _ ne ∙ trip_standing s d j)

  -- The client over a Redis server, as the services take it.
  abbrev pub live_counters : LiveCounters
  live_counters = record {
    Db = s.Db;
    standing = standing s;
    increment_option = increment_option s;
    results = results s;
    replace_results = replace_results s;
    delete_results = delete_results s;
    results_done = results_done;
    results_reads = results_reads;
    increment_done = λ k o d b. (increment_option-Promised s k o d).0 b;
    increment_failed = λ k o d c. (increment_option-Promised s k o d).1 c;
    increment_others = increment_others;
    replace_lem = replace_results_lem;
    replace_others = replace_results_others;
  }
