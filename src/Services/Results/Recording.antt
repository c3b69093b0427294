-- ===== src/Services/Results/Recording.antt =====
-- `RecordVote` keeps the counters with the votes (backend/internal/services/result_service.go).
use live_polling.Prelude.{
  ℕ, suc, ◌≡◌, refl, sym, ap, subst, ◌⊎◌, inl, inr, Bool, true, false, Option, none, some, List, [],
  ◌∷◌, ◌++◌, arith, Str, str_eq, str_eq_iff, Int64, int64, Dict, All, if_elim, if◌then◌else◌,
  Bool-cases, ◌&&◌, count-append, ◌==◌, ==_refl,
}
use live_polling.Apperr.{Attempt, done, failed, Cause}
use live_polling.Models.{Poll, PollOption, Vote}
use live_polling.Services.Stores.{count_or_zero, Bumped}
use live_polling.Services.World.{Stores, World}
use live_polling.Services.Results.{rebuild, record_vote_from, record_vote}
use live_polling.Services.Results.Reading.{IsCached}
use live_polling.Services.Results.Standing.{
  votes_for, Agrees, stored, counters_of, Reports, rebuild-Reports,
}

module _ (s : Stores) (p : Poll) where
  tally_bump :
      (vs : List Vote) (v : Vote) (o : Str)
      → v.poll_id ≡ p.id
      → votes_for p (vs ++ v ∷ []) o
        ≡ (if str_eq v.option_id o then suc (votes_for p vs o) else votes_for p vs o)
  tally_bump vs v o h = ground (
    arith,
    count-append (λ x. x.poll_id == p.id && str_eq x.option_id o) vs (v ∷ []),
    ap (λ (i : ℕ). i == p.id) h,
    ==_refl p.id,
  )

  bump-Agrees :
      (vs : List Vote) (v : Vote) (b a : Option (Dict Int64))
      → v.poll_id ≡ p.id
      → Agrees p vs b
      → Bumped v.option_id b a
      → Agrees p (vs ++ v ∷ []) a
  bump-Agrees vs v none none h agrees bumped = tt
  bump-Agrees vs v none (some a) h agrees bumped = absurd bumped
  bump-Agrees vs v (some b) none h agrees bumped = absurd bumped
  bump-Agrees vs v (some b) (some a) h agrees bumped = each p.options agrees
    where
      one :
          (o : PollOption)
          → count_or_zero o.id b ≡ int64 (votes_for p vs o.id)
          → count_or_zero o.id a ≡ int64 (votes_for p (vs ++ v ∷ []) o.id)
      one o g = elim (Bool-cases (str_eq v.option_id o.id)) [
        | inl same ↦ ground (
          arith,
          bumped o.id,
          tally_bump vs v o.id h,
          ap (λ (k : Str). count_or_zero k b) ((str_eq_iff v.option_id o.id).0 same),
        )
        | inr other ↦ ground (arith, bumped o.id, tally_bump vs v o.id h)
      ]

      each :
          (os : List PollOption)
          → All (λ o. count_or_zero o.id b ≡ int64 (votes_for p vs o.id)) os
          → All (λ o. count_or_zero o.id a ≡ int64 (votes_for p (vs ++ v ∷ []) o.id)) os
      each [] g = tt
      each (o ∷ os) g = (one o g.0, each os g.1)

  -- What recording a vote that has just been stored does: the votes are untouched, and the counters
  -- are cold or agree with the votes, or the increment failed and they still agree with the votes
  -- before.
  abbrev pub Recorded : List Vote → Attempt Bool → World s → World s → Type 0
  Recorded vs answer w w' =
      (stored s p w' ≡ stored s p w)
      × (IsCached s p w' ⊎ ((c : Cause) × (answer ≡ failed c) × Agrees p vs (counters_of s p w')))

  record_vote_from-Recorded :
      (vs : List Vote) (v : Vote) (answer : Attempt Bool) (w : World s) (b : Option (Dict Int64))
      → v.poll_id ≡ p.id
      → stored s p w ≡ vs ++ v ∷ []
      → Agrees p vs b
      → ((d : Bool) → answer ≡ done d → Bumped v.option_id b (counters_of s p w))
      → ((c : Cause)
          → answer ≡ failed c
          → (counters_of s p w ≡ b) ⊎ Bumped v.option_id b (counters_of s p w))
      → Recorded vs answer w (record_vote_from s p answer w)
  unfolding record_vote_from
  record_vote_from-Recorded vs v (done true) w b own st agrees warm fail = (
    refl,
    inl (λ on.
        subst (λ x. Agrees p x (counters_of s p w)) (sym st)
          (bump-Agrees vs v b _ own agrees (warm true refl))),
  )
  record_vote_from-Recorded vs v (done false) w b own st agrees warm fail =
      let re : Reports s p (stored s p w) w (rebuild s p w) = rebuild-Reports s p w in
      (
        re.kept,
        inl (λ on.
            subst (λ x. Agrees p x (counters_of s p (rebuild s p w).1)) (sym re.kept)
              (elim re.cached [
                | inl now ↦ now
                | inr same ↦ subst (Agrees p (stored s p w)) (sym same) (
                    subst (λ x. Agrees p x (counters_of s p w)) (sym st)
                      (bump-Agrees vs v b _ own agrees (warm false refl)))
              ])),
      )
  record_vote_from-Recorded vs v (failed c) w b own st agrees warm fail = (
    refl,
    elim (fail c refl) [
      | inl same ↦ inr (c, refl, subst (Agrees p vs) (sym same) agrees)
      | inr bumped ↦ inl (λ on.
          subst (λ x. Agrees p x (counters_of s p w)) (sym st)
            (bump-Agrees vs v b _ own agrees bumped))
    ],
  )

  -- After a vote for this poll has been stored, `RecordVote` brings counters that agreed with the
  -- votes before it into agreement with the votes now, or leaves them cold; where the increment
  -- fails they may stay in agreement with the votes before. The votes are untouched.
  pub record_vote-Recorded :
      (vs : List Vote) (v : Vote) (w : World s)
      → v.poll_id ≡ p.id
      → stored s p w ≡ vs ++ v ∷ []
      → (s.has_counters ≡ true → Agrees p vs (counters_of s p w))
      → Recorded vs
          (s.counters.increment_option (s.ids.hex p.id) v.option_id w.counters).0
          w
          (record_vote s p v.option_id w)
  unfolding record_vote
  record_vote-Recorded vs v w own st agrees =
      if_elim
        (Recorded vs (s.counters.increment_option (s.ids.hex p.id) v.option_id w.counters).0 w)
        s.has_counters _ _
        (λ on.
          record_vote_from-Recorded vs v _ _ _ own st (agrees on)
            (s.counters.increment_done _ v.option_id w.counters)
            (s.counters.increment_failed _ v.option_id w.counters))
        (λ off. (refl, inl (λ on. cc)))

  record_vote_from_kept :
      (answer : Attempt Bool) (w : World s)
      → s.votes.votes (record_vote_from s p answer w).votes ≡ s.votes.votes w.votes
  unfolding record_vote_from
  record_vote_from_kept (done true) w = refl
  record_vote_from_kept (done false) w = (rebuild-Reports s p w).kept
  record_vote_from_kept (failed _) w = refl

  -- `RecordVote` stores and removes no vote.
  pub record_vote_kept :
      (o : Str) (w : World s) → s.votes.votes (record_vote s p o w).votes ≡ s.votes.votes w.votes
  unfolding record_vote
  record_vote_kept o w =
      if_elim (λ (w' : World s). s.votes.votes w'.votes ≡ s.votes.votes w.votes) s.has_counters _ _
        (λ _. record_vote_from_kept _ _) (λ _. refl)
