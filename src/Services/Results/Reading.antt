-- ===== src/Services/Results/Reading.antt =====
-- `ForPoll` against the votes (backend/internal/services/result_service.go).
use live_polling.Prelude.{
  ◌≡◌, refl, sym, ap, subst, ◌∙◌, inl, inr, true, Option, none, some, List, Int64, Dict, if_elim,
}
use live_polling.Apperr.{Attempt, done, failed, Error, Result, ok, err, ok-injective}
use live_polling.Models.{Poll, OptionCount}
use live_polling.Services.World.{Stores, World}
use live_polling.Services.Results.{Results, rebuild_from, rebuild, for_poll_from, for_poll}
use live_polling.Services.Results.Standing.{
  Agrees, IsStanding, stored, counters_of, Reports, assemble-IsStanding, rebuild-Reports,
  assemble_keeps,
}

module _ (s : Stores) (p : Poll) where
  rebuild_from_err :
      (rows : Result (List OptionCount)) (w : World s) (e : Error)
      → (rebuild_from s p rows w).0 ≡ err e
      → rows ≡ err e
  unfolding rebuild_from
  rebuild_from_err (err x) w e h = cc
  rebuild_from_err (ok rows) w e h = cc

  rebuild_err :
      (w : World s) (e : Error)
      → (rebuild s p w).0 ≡ err e
      → (s.votes.counts_by_poll p.id w.votes).0 ≡ err e
  unfolding rebuild
  rebuild_err w e h = rebuild_from_err _ _ e h

  for_poll_from-Reports :
      (answer : Attempt (Option (Dict Int64))) (w : World s)
      → ((c : Option (Dict Int64)) → answer ≡ done c → Agrees p (stored s p w) c)
      → Reports s p (stored s p w) w (for_poll_from s p answer w)
  unfolding for_poll_from
  for_poll_from-Reports (failed _) w h = rebuild-Reports s p w
  for_poll_from-Reports (done none) w h = rebuild-Reports s p w
  for_poll_from-Reports (done (some counts)) w h = record {
    correct = λ r eq.
        subst (IsStanding s p _) (ok-injective eq)
          (assemble-IsStanding s p (stored s p w) counts w (h (some counts) refl));
    kept = ap s.votes.votes (assemble_keeps s p counts w).0;
    cached = inr (ap (λ c. s.counters.standing c (s.ids.hex p.id)) (assemble_keeps s p counts w).1);
  }

  -- The counters of the poll, if the service has counters at all, are cold or agree with the votes.
  abbrev pub IsCached : World s → Type 0
  IsCached w = s.has_counters ≡ true → Agrees p (stored s p w) (counters_of s p w)

  for_poll-Reports : (w : World s) → IsCached w → Reports s p (stored s p w) w (for_poll s p w)
  unfolding for_poll
  for_poll-Reports w h =
      if_elim (Reports s p (stored s p w) w) s.has_counters _ _ (λ on. warm (h on))
        (λ _. rebuild-Reports s p w)
    where
      w₁ : World s
      w₁ = record w { counters = (s.counters.results (s.ids.hex p.id) w.counters).1 }

      answer : Attempt (Option (Dict Int64))
      answer = (s.counters.results (s.ids.hex p.id) w.counters).0

      warm :
          Agrees p (stored s p w) (counters_of s p w)
          → Reports s p (stored s p w) w (for_poll_from s p answer w₁)
      warm agrees =
          let from : Reports s p (stored s p w) w₁ (for_poll_from s p answer w₁) =
            for_poll_from-Reports answer w₁ λ c e.
              subst (Agrees p (stored s p w)) (sym (s.counters.results_done _ w.counters c e))
                agrees in
          record {
            correct = from.correct;
            kept = from.kept;
            cached = elim from.cached [
              | inl now ↦ inl now
              | inr same ↦ inr (same ∙ s.counters.results_reads _ _ w.counters)
            ];
          }

  -- Where a poll's counters are cold or agree with its votes, a result of `ForPoll` is the poll's
  -- standing in the stored votes, whichever store it came from; the votes are untouched, and the
  -- counters are still cold or in agreement afterwards.
  pub for_poll-IsStanding :
      (w : World s) (r : Results)
      → IsCached w
      → (for_poll s p w).0 ≡ ok r
      → IsStanding s p (stored s p w) r
        × (stored s p (for_poll s p w).1 ≡ stored s p w)
        × IsCached (for_poll s p w).1
  for_poll-IsStanding w r h e =
      let done : Reports s p (stored s p w) w (for_poll s p w) = for_poll-Reports w h in
      (
        done.correct r e,
        done.kept,
        λ on.
            subst (λ vs. Agrees p vs (counters_of s p (for_poll s p w).1)) (sym done.kept)
              (elim done.cached [
                | inl now ↦ now
                | inr same ↦ subst (Agrees p (stored s p w)) (sym same) (h on)
              ]),
      )

  for_poll_from_err :
      (answer : Attempt (Option (Dict Int64))) (w : World s) (e : Error)
      → (for_poll_from s p answer w).0 ≡ err e
      → (s.votes.counts_by_poll p.id w.votes).0 ≡ err e
  unfolding for_poll_from
  for_poll_from_err (failed _) w e h = rebuild_err w e h
  for_poll_from_err (done none) w e h = rebuild_err w e h
  for_poll_from_err (done (some counts)) w e h = cc

  -- `ForPoll` fails only where the tally of the votes collection fails, and with that error: no
  -- failure of the counters reaches the caller.
  pub for_poll_err :
      (w : World s) (e : Error)
      → (for_poll s p w).0 ≡ err e
      → (s.votes.counts_by_poll p.id w.votes).0 ≡ err e
  unfolding for_poll
  for_poll_err w e =
      if_elim {A = Result Results × World s}
        (λ q. q.0 ≡ err e → (s.votes.counts_by_poll p.id w.votes).0 ≡ err e) s.has_counters _ _
        (λ _ h. for_poll_from_err _ _ e h) (λ _ h. rebuild_err w e h)

  for_poll_from_kept :
      (answer : Attempt (Option (Dict Int64))) (w : World s)
      → s.votes.votes (for_poll_from s p answer w).1.votes ≡ s.votes.votes w.votes
  unfolding for_poll_from
  for_poll_from_kept (failed _) w = (rebuild-Reports s p w).kept
  for_poll_from_kept (done none) w = (rebuild-Reports s p w).kept
  for_poll_from_kept (done (some counts)) w = ap s.votes.votes (assemble_keeps s p counts w).0

  -- `ForPoll` stores and removes no vote.
  pub for_poll_kept : (w : World s) → s.votes.votes (for_poll s p w).1.votes ≡ s.votes.votes w.votes
  unfolding for_poll
  for_poll_kept w =
      if_elim {A = Result Results × World s} (λ q. s.votes.votes q.1.votes ≡ s.votes.votes w.votes)
        s.has_counters _ _ (λ _. for_poll_from_kept _ _) (λ _. (rebuild-Reports s p w).kept)
