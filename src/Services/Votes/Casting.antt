-- ===== src/Services/Votes/Casting.antt =====
-- What a call of `Cast` does to the votes (backend/internal/services/vote_service.go).
use live_polling.Prelude.{
  ◌≡◌, refl, sym, ap, subst, ◌∙◌, inl, inr, true, false, List, [], ◌∷◌, ◌++◌, Str, is_empty, length,
  ltb, ◌||◌, if_elim,
}
use live_polling.Apperr.{Result, ok, err, Result-cases}
use live_polling.Models.{ObjectId, Time, Poll, Vote, has_option, accepts_votes}
use live_polling.Services.Stores.{voted, with_id}
use live_polling.Services.World.{Stores, World}
use live_polling.Services.Results.{Results, for_poll, record_vote}
use live_polling.Services.Results.Reading.{for_poll_kept}
use live_polling.Services.Results.Recording.{record_vote_kept}
use live_polling.Services.Realtime.Laws.{publish_results_keeps}
use live_polling.Services.Votes.{
  ballot, max_option_id_length, finish, cast_stored, cast_open, cast_found, cast,
}

-- What a call of `Cast` may do to the votes: nothing, or store one vote, for a poll that the lookup
-- found, which has that option and accepts votes at the instant read, by a voter who had none in it.
pub data Effect (option_id voter_id : Str) (found : Result Poll) (now : Time)
    (before after : List Vote) : Type 0 where
  unchanged : after ≡ before → Effect option_id voter_id found now before after
  stores :
      (p : Poll) (i : ObjectId) (t : Time)
      → found ≡ ok p
      → has_option p option_id ≡ true
      → accepts_votes p now ≡ true
      → voted p.id voter_id before ≡ false
      → after ≡ before ++ with_id (ballot p option_id voter_id t) i ∷ []
      → Effect option_id voter_id found now before after

module _ (s : Stores) where
  finish_kept :
      (r : Result Results) (w : World s)
      → s.votes.votes (finish s (r, w)).1.votes ≡ s.votes.votes w.votes
  unfolding finish
  finish_kept (err e) w = refl
  finish_kept (ok r) w =
      if_elim (λ (w' : World s). s.votes.votes w'.votes ≡ s.votes.votes w.votes) s.has_broadcast _ _
        (λ _. ap (λ (x : World s). s.votes.votes x.votes) (publish_results_keeps s r w)) (λ _. refl)

  cast_stored_kept :
      (p : Poll) (o : Str) (r : Result Vote) (w : World s)
      → s.votes.votes (cast_stored s p o r w).1.votes ≡ s.votes.votes w.votes
  unfolding cast_stored
  cast_stored_kept p o (err e) w = refl
  cast_stored_kept p o (ok v) w =
      finish_kept (for_poll s p (record_vote s p o w)).0 _
      ∙ for_poll_kept s p (record_vote s p o w)
      ∙ record_vote_kept s p o w

  module _ (o u : Str) where
    cast_open-Effect :
        (p : Poll) (now : Time) (w : World s)
        → has_option p o ≡ true
        → accepts_votes p now ≡ true
        → Effect o u
            (ok p)
            now
            (s.votes.votes w.votes)
            (s.votes.votes (cast_open s p o u w).1.votes)
    unfolding cast_open
    cast_open-Effect p now w has live =
        subst (Effect o u (ok p) now (s.votes.votes w.votes)) (sym (cast_stored_kept p o _ _))
          (elim (Result-cases (s.votes.create b w.votes).0) [
            | inl (v, e) ↦
                let (fresh, (i, is), grown) = s.votes.create_ok b v w.votes e in
                stores p i t refl has live fresh
                  (grown ∙ ap (λ x. s.votes.votes w.votes ++ x ∷ []) is)
            | inr (x, e) ↦ elim (s.votes.create_err b w.votes x e) [
              | inl (_, _, kept) ↦ unchanged kept
              | inr (_, inl kept) ↦ unchanged kept
              | inr (_, inr (i, fresh, grown)) ↦ stores p i t refl has live fresh grown
            ]
          ])
      where
        t : Time
        t = (s.clock.now w.clock).0

        b : Vote
        b = ballot p o u t

    cast_found-Effect :
        (found : Result Poll) (w : World s)
        → Effect o u found
            (s.clock.now w.clock).0
            (s.votes.votes w.votes)
            (s.votes.votes (cast_found s found o u w).1.votes)
    unfolding cast_found
    cast_found-Effect (err e) w = unchanged refl
    cast_found-Effect (ok p) w =
        if_elim P (has_option p o) _ _
          (λ has.
            if_elim P (accepts_votes p (s.clock.now w.clock).0) _ _
              (λ live. cast_open-Effect p _ _ has live) (λ _. unchanged refl))
          (λ _. unchanged refl)
      where
        P : Result Results × World s → Type 0
        P q =
            Effect o u (ok p) (s.clock.now w.clock).0 (s.votes.votes w.votes)
              (s.votes.votes q.1.votes)

    -- Whatever `Cast` returns, an error included, it has left the votes alone or stored exactly one
    -- vote: for the poll that the lookup found, for an option of that poll, while the poll accepted
    -- votes by the clock, and by a voter who had no vote in that poll.
    pub cast-Effect :
        (poll_id : Str) (w : World s)
        → Effect o u
            (s.polls.find_by_id poll_id w.polls).0
            (s.clock.now w.clock).0
            (s.votes.votes w.votes)
            (s.votes.votes (cast s poll_id o u w).1.votes)
    unfolding cast
    cast-Effect poll_id w =
        if_elim P (is_empty u) _ _ (λ _. unchanged refl)
          (λ _.
            if_elim P (is_empty o || ltb max_option_id_length (length o)) _ _ (λ _. unchanged refl)
              (λ _. cast_found-Effect _ _))
      where
        P : Result Results × World s → Type 0
        P q =
            Effect o u (s.polls.find_by_id poll_id w.polls).0 (s.clock.now w.clock).0
              (s.votes.votes w.votes) (s.votes.votes q.1.votes)
