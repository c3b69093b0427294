-- ===== src/Services/Votes/Accepting.antt =====
-- A vote that `Cast` accepts, and the standing that it returns
-- (backend/internal/services/vote_service.go).
use live_polling.Prelude.{
  ◌≡◌, ◌≢◌, refl, sym, ap, subst, ◌∙◌, inl, inr, true, false, List, [], ◌∷◌, ◌++◌, Str, is_empty,
  length, ltb, ◌||◌, if_elim,
}
use live_polling.Apperr.{Cause, Result, ok, err, failed}
use live_polling.Models.{ObjectId, Time, Poll, Vote, has_option, accepts_votes}
use live_polling.Services.Stores.{voted, with_id}
use live_polling.Services.World.{Stores, World}
use live_polling.Services.Results.{Results, for_poll, record_vote}
use live_polling.Services.Results.Standing.{stored, Agrees, IsStanding, counters_of}
use live_polling.Services.Results.Reading.{IsCached, for_poll-IsStanding, for_poll_kept}
use live_polling.Services.Results.Recording.{Recorded, record_vote-Recorded, record_vote_kept}
use live_polling.Services.Realtime.Laws.{publish_results_keeps}
use live_polling.Services.Votes.{
  ballot, max_option_id_length, finish, cast_stored, cast_open, cast_found, cast,
}

module _ (s : Stores) where
  abbrev Standing : Type 0
  Standing = Result Results × World s

  finish_keeps :
      (q : Standing)
      → ((finish s q).0 ≡ q.0)
        × ((finish s q).1.votes ≡ q.1.votes)
        × ((finish s q).1.counters ≡ q.1.counters)
  unfolding finish
  finish_keeps (err e, w) = (refl, refl, refl)
  finish_keeps (ok r, w) =
      if_elim
        (λ (w' : World s).
          (◌≡◌ {A = Result Results} (ok r) (ok r))
          × (w'.votes ≡ w.votes)
          × (w'.counters ≡ w.counters))
        s.has_broadcast _ _
        (λ _. (
          refl,
          ap (λ (x : World s). x.votes) (publish_results_keeps s r w),
          ap (λ (x : World s). x.counters) (publish_results_keeps s r w),
        ))
        (λ _. (refl, refl, refl))

  -- What a call that returns a result has gone through, from the votes `vs` and the counters `c` at
  -- the instant `now`: the poll was found and open and has the option, the vote was stored, and the
  -- result is what `ForPoll` gave after `RecordVote`.
  record Accepted (found : Result Poll) (o u : Str) (now : Time) (vs : List Vote)
      (c : s.counters.Db) (r : Results) (q : Standing) : Type 0 where
    poll : Poll
    vote : Vote
    after : World s
    is_found : found ≡ ok poll
    has : has_option poll o ≡ true
    live : accepts_votes poll now ≡ true
    fresh : voted poll.id u vs ≡ false
    of_poll : vote.poll_id ≡ poll.id
    of_option : vote.option_id ≡ o
    of_voter : vote.voter_id ≡ u
    grown : s.votes.votes after.votes ≡ vs ++ vote ∷ []
    counters : after.counters ≡ c
    result : (for_poll s poll (record_vote s poll o after)).0 ≡ ok r
    end_votes : q.1.votes ≡ (for_poll s poll (record_vote s poll o after)).1.votes
    end_counters : q.1.counters ≡ (for_poll s poll (record_vote s poll o after)).1.counters

  module _ (o u : Str) (r : Results) where
    cast_stored-Accepted :
        (p : Poll) (now t : Time) (vs : List Vote) (res : Result Vote) (w : World s)
        → has_option p o ≡ true
        → accepts_votes p now ≡ true
        → ((v : Vote)
            → res ≡ ok v
            → (voted p.id u vs ≡ false)
              × ((i : ObjectId) × (v ≡ with_id (ballot p o u t) i))
              × (s.votes.votes w.votes ≡ vs ++ v ∷ []))
        → (cast_stored s p o res w).0 ≡ ok r
        → Accepted (ok p) o u now vs w.counters r (cast_stored s p o res w)
    unfolding cast_stored
    cast_stored-Accepted p now t vs (err e) w has live st h = cc
    cast_stored-Accepted p now t vs (ok v) w has live st h =
        let (fresh, (i, is), grown) = st v refl in
        let (same, ev, ec) = finish_keeps (for_poll s p (record_vote s p o w)) in
        record {
          poll = p;
          vote = v;
          after = w;
          is_found = refl;
          has = has;
          live = live;
          fresh = fresh;
          of_poll = ap (λ (x : Vote). x.poll_id) is;
          of_option = ap (λ (x : Vote). x.option_id) is;
          of_voter = ap (λ (x : Vote). x.voter_id) is;
          grown = grown;
          counters = refl;
          result = sym same ∙ h;
          end_votes = ev;
          end_counters = ec;
        }

    cast_found-Accepted :
        (found : Result Poll) (w : World s)
        → (cast_found s found o u w).0 ≡ ok r
        → Accepted found o u
            (s.clock.now w.clock).0
            (s.votes.votes w.votes)
            w.counters
            r
            (cast_found s found o u w)
    unfolding cast_found cast_open
    cast_found-Accepted (err e) w = λ h. cc
    cast_found-Accepted (ok p) w =
        if_elim P (has_option p o) _ _
          (λ has.
            if_elim P (accepts_votes p (s.clock.now w.clock).0) _ _
              (λ live h.
                cast_stored-Accepted p _ _ _ _ _ has live (λ v e. s.votes.create_ok _ v w.votes e)
                  h)
              (λ _ h. cc))
          (λ _ h. cc)
      where
        P : Standing → Type 0
        P q =
            q.0 ≡ ok r
            → Accepted (ok p) o u (s.clock.now w.clock).0 (s.votes.votes w.votes) w.counters r q

    cast-Accepted :
        (poll_id : Str) (w : World s)
        → (cast s poll_id o u w).0 ≡ ok r
        → Accepted
            (s.polls.find_by_id poll_id w.polls).0
            o
            u
            (s.clock.now w.clock).0
            (s.votes.votes w.votes)
            w.counters
            r
            (cast s poll_id o u w)
    unfolding cast
    cast-Accepted poll_id w =
        if_elim P (is_empty u) _ _ (λ _ h. cc)
          (λ _.
            if_elim P (is_empty o || ltb max_option_id_length (length o)) _ _ (λ _ h. cc)
              (λ _ h. cast_found-Accepted _ _ h))
      where
        P : Standing → Type 0
        P q =
            q.0 ≡ ok r
            → Accepted (s.polls.find_by_id poll_id w.polls).0 o u (s.clock.now w.clock).0
                (s.votes.votes w.votes) w.counters r q

    Accepted-grown :
        {found : Result Poll} {now : Time} {vs : List Vote} {c : s.counters.Db} {q : Standing}
        → (a : Accepted found o u now vs c r q)
        → (s.votes.votes q.1.votes ≡ s.votes.votes (record_vote s a.poll o a.after).votes)
          × (s.votes.votes q.1.votes ≡ vs ++ a.vote ∷ [])
    Accepted-grown a =
        let kept =
          ap s.votes.votes a.end_votes ∙ for_poll_kept s a.poll (record_vote s a.poll o a.after) in
        (kept, kept ∙ record_vote_kept s a.poll o a.after ∙ a.grown)

    Accepted-end :
        {found : Result Poll} {now : Time} {vs : List Vote} {c : s.counters.Db} {q : Standing}
        → (a : Accepted found o u now vs c r q)
        → (s.has_counters ≡ true → Agrees a.poll vs (s.counters.standing c (s.ids.hex a.poll.id)))
        → ((x : Cause) → (s.counters.increment_option (s.ids.hex a.poll.id) o c).0 ≢ failed x)
        → IsStanding s a.poll (s.votes.votes q.1.votes) r × IsCached s a.poll q.1
    Accepted-end {vs} {c} {q} a agrees sound = (
      subst (λ x. IsStanding s p x r) (sym (Accepted-grown a).0) end.0,
      λ on.
          subst (λ x. Agrees p x (counters_of s p q.1)) (ap s.votes.votes (sym a.end_votes))
            (subst (λ x. Agrees p (stored s p w₃) (s.counters.standing x k)) (sym a.end_counters)
              (end.2 on)),
    )
      where
        p : Poll
        p = a.poll

        k : Str
        k = s.ids.hex p.id

        w₂ : World s
        w₂ = record_vote s p o a.after

        w₃ : World s
        w₃ = (for_poll s p w₂).1

        recorded : Recorded s p vs (s.counters.increment_option k o a.after.counters).0 a.after w₂
        recorded =
            subst
              (λ x.
                Recorded s p vs (s.counters.increment_option k x a.after.counters).0 a.after
                  (record_vote s p x a.after))
              a.of_option
              (record_vote-Recorded s p vs a.vote a.after a.of_poll a.grown (λ on.
                subst (λ x. Agrees p vs (s.counters.standing x k)) (sym a.counters) (agrees on)))

        cached : IsCached s p w₂
        cached = elim recorded.1 [
          | inl now ↦ now
          | inr (x, e, _) ↦
              absurd (
                sound x
                  (subst (λ y. (s.counters.increment_option k o y).0 ≡ failed x) a.counters e))
        ]

        end : IsStanding s p (stored s p w₂) r × (stored s p w₃ ≡ stored s p w₂) × IsCached s p w₃
        end = for_poll-IsStanding s p w₂ r cached a.result

    -- A call of `Cast` that returns a result has stored one vote of this voter for this option in
    -- the poll that the lookup found, which has the option and is open, where the voter had none. If
    -- moreover that poll's counters were cold or agreed with the votes, and the increment does not
    -- fail, the result is the poll's standing with the new vote counted, and the counters are cold or
    -- agree with the votes again.
    pub cast-IsStanding :
        (poll_id : Str) (w : World s)
        → (cast s poll_id o u w).0 ≡ ok r
        → (p : Poll) × (v : Vote) × ((s.polls.find_by_id poll_id w.polls).0 ≡ ok p)
          × (has_option p o ≡ true)
          × (accepts_votes p (s.clock.now w.clock).0 ≡ true)
          × (voted p.id u (s.votes.votes w.votes) ≡ false)
          × ((v.poll_id ≡ p.id) × (v.option_id ≡ o) × (v.voter_id ≡ u))
          × (s.votes.votes (cast s poll_id o u w).1.votes ≡ s.votes.votes w.votes ++ v ∷ [])
          × (IsCached s p w
              → ((c : Cause)
                  → (s.counters.increment_option (s.ids.hex p.id) o w.counters).0 ≢ failed c)
              → IsStanding s p (s.votes.votes (cast s poll_id o u w).1.votes) r
                × IsCached s p (cast s poll_id o u w).1)
    cast-IsStanding poll_id w h =
        let a = cast-Accepted poll_id w h in
        (
          a.poll,
          a.vote,
          a.is_found,
          a.has,
          a.live,
          a.fresh,
          (a.of_poll, a.of_option, a.of_voter),
          (Accepted-grown a).1,
          Accepted-end a,
        )
