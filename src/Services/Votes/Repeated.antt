-- ===== src/Services/Votes/Repeated.antt =====
-- Who has voted in a poll does not vote again (backend/internal/services/vote_service.go).
use live_polling.Prelude.{
  ◌≡◌, refl, sym, subst, ◌∙◌, inl, inr, Bool, true, false, ◌&&◌, List, [], ◌∷◌, ◌++◌, Str, str_eq,
  str_eq_iff, ◌==◌, Member, any-Member, arith,
}
use live_polling.Apperr.{Error, ok, err, Result-cases, done-injective}
use live_polling.Models.{ObjectId, Poll, Vote}
use live_polling.Services.Stores.{voted}
use live_polling.Services.World.{Stores, World}
use live_polling.Services.Results.{Results}
use live_polling.Services.Votes.{cast}
use live_polling.Services.Votes.Casting.{unchanged, stores, cast-Effect}
use live_polling.Services.Votes.Accepting.{cast-IsStanding}

last-Member : (v : Vote) (vs : List Vote) → Member v (vs ++ v ∷ [])
last-Member v [] = inl refl
last-Member v (x ∷ vs) = inr (last-Member v vs)

has_voted :
    (v : Vote) (i : ObjectId) (u : Str) (vs : List Vote)
    → Member v vs
    → v.poll_id ≡ i
    → v.voter_id ≡ u
    → voted i u vs ≡ true
has_voted v i u vs there of_poll of_voter =
    any-Member (λ x. x.poll_id == i && str_eq x.voter_id u) v vs there
      (ground (arith, of_poll, (str_eq_iff v.voter_id u).1 of_voter))

clash : {b : Bool} → b ≡ true → b ≡ false → ⊥
clash h k = cc

module _ (s : Stores) (o o' u poll_id : Str) where
  -- Once a call of `Cast` has returned a result, every later call for the same poll by the same voter,
  -- for whichever option, is refused and stores nothing, as long as the votes that were there after the
  -- first call still are.
  pub cast-cast :
      (w w' : World s) (r : Results)
      → (cast s poll_id o u w).0 ≡ ok r
      → ((v : Vote)
          → Member v (s.votes.votes (cast s poll_id o u w).1.votes)
          → Member v (s.votes.votes w'.votes))
      → (s.votes.votes (cast s poll_id o' u w').1.votes ≡ s.votes.votes w'.votes)
        × ((e : Error) × ((cast s poll_id o' u w').0 ≡ err e))
  cast-cast w w' r first kept = (
    elim (cast-Effect s o' u poll_id w') [
      | unchanged same ↦ same
      | stores p i t found _ _ fresh _ ↦ absurd (clash (taken p found) fresh)
    ],
    elim (Result-cases (cast s poll_id o' u w').0) [
      | inl (r', again) ↦
          let (p, _, found, _, _, fresh, _, _, _) = cast-IsStanding s o' u r' poll_id w' again in
          absurd (clash (taken p found) fresh)
      | inr refused ↦ refused
    ],
  )
    where
      taken :
          (p : Poll)
          → (s.polls.find_by_id poll_id w'.polls).0 ≡ ok p
          → voted p.id u (s.votes.votes w'.votes) ≡ true
      taken p found =
          let (q, v, found', _, _, _, (of_poll, _, of_voter), grown, _) =
            cast-IsStanding s o u r poll_id w first in
          let same : q.id ≡ p.id = done-injective (
            sym (s.polls.find_ok poll_id w.polls q found').0
            ∙ (s.polls.find_ok poll_id w'.polls p found).0) in
          has_voted v p.id u _
            (kept v (subst (Member v) (sym grown) (last-Member v (s.votes.votes w.votes))))
            (of_poll ∙ same) of_voter
