-- ===== src/Services/Polls/Listing.antt =====
-- The dashboard: `ListForOwner` of backend/internal/services/poll_service.go.
use live_polling.Prelude.{
  ◌≡◌, refl, ap, subst, sym, true, List, [], ◌∷◌, map, arith, Int64, int64, ◌==◌, ==_refl, All, any,
  count,
}
use live_polling.Apperr.{Result, ok, err, ok-injective}
use live_polling.Models.{ObjectId, Poll, Vote}
use live_polling.Mongo.{IsPage}
use live_polling.Services.World.{Stores, World, Action}

-- `PollWithTotal`
pub record PollWithTotal : Type 0 where
  pub poll : Poll
  pub total_votes : Int64

-- `dashboardLimit`
abbrev pub dashboard_limit : Int64
dashboard_limit = 100

-- The loop of `ListForOwner` over the polls, once their totals are there.
unfoldable pub with_totals : List Poll → Result (ObjectId → Int64) → Result (List PollWithTotal)
with_totals polls (err e) = err e
with_totals polls (ok totals) =
    ok (map (λ (p : Poll). record { poll = p; total_votes = totals p.id }) polls)

with_totals_ok :
    (polls : List Poll) (totals : Result (ObjectId → Int64)) (rows : List PollWithTotal)
    → with_totals polls totals ≡ ok rows
    → (t : ObjectId → Int64) × (totals ≡ ok t)
      × (map (λ (p : Poll). record { poll = p; total_votes = t p.id }) polls ≡ rows)
unfolding with_totals
with_totals_ok polls (ok t) rows h = (t, refl, ok-injective h)
with_totals_ok polls (err e) rows h = cc

module _ (s : Stores) where
  -- `ListForOwner` once the polls are there.
  listed : Result (List Poll) → Action s (List PollWithTotal)
  listed (err e) w = (err e, w)
  listed (ok polls) w =
      let (totals, votes) = s.votes.totals_by_polls (map (λ (p : Poll). p.id) polls) w.votes in
      (with_totals polls totals, record w { votes = votes })

  -- `ListForOwner`
  unfoldable pub list_for_owner : ObjectId → Action s (List PollWithTotal)
  unfolding listed
  list_for_owner owner w =
      let (polls, d) = s.polls.list_by_owner owner dashboard_limit w.polls in
      listed polls (record w { polls = d })

  -- The number of votes that are stored for a row's poll.
  abbrev pub IsTotal : World s → PollWithTotal → Type 0
  IsTotal w r =
      r.total_votes ≡ int64 (count (λ (v : Vote). v.poll_id == r.poll.id) (s.votes.votes w.votes))

  -- The owner's polls, the newest first, all of them up to the limit, and their totals.
  abbrev pub IsDashboard : ObjectId → World s → List PollWithTotal → Type 0
  IsDashboard owner w rows =
      IsPage (λ p. p.owner_id == owner) (λ p. p.created_at) dashboard_limit (s.polls.polls w.polls)
        (map (λ (r : PollWithTotal). r.poll) rows)
      × All (IsTotal w) rows

  totals-All :
      (w : World s) (totals : ObjectId → Int64) (ids : List ObjectId) (ps : List Poll)
      → ((p : ObjectId)
          → any (λ i. i == p) ids ≡ true
          → totals p ≡ int64 (count (λ v. v.poll_id == p) (s.votes.votes w.votes)))
      → ((p : ObjectId)
          → any (λ i. i == p) (map (λ (q : Poll). q.id) ps) ≡ true
          → any (λ i. i == p) ids ≡ true)
      → All (IsTotal w) (map (λ (p : Poll). record { poll = p; total_votes = totals p.id }) ps)
  totals-All w totals ids [] right sub = tt
  totals-All w totals ids (p ∷ ps) right sub = (
    right p.id (sub p.id (ground (arith, ==_refl p.id))),
    totals-All w totals ids ps right (λ q m. sub q (ground (arith, m))),
  )

  listed-IsDashboard :
      (owner : ObjectId) (w : World s) (polls : Result (List Poll)) (d : s.polls.Db)
      (rows : List PollWithTotal)
      → ((ps : List Poll)
          → polls ≡ ok ps
          → IsPage
              (λ p. p.owner_id == owner)
              (λ p. p.created_at)
              dashboard_limit
              (s.polls.polls w.polls)
              ps)
      → (listed polls (record w { polls = d })).0 ≡ ok rows
      → IsDashboard owner w rows
  unfolding listed
  listed-IsDashboard owner w (err e) d rows law h = cc
  listed-IsDashboard owner w (ok ps) d rows law h =
      let ids = map (λ (p : Poll). p.id) ps in
      let (t, e, is) = with_totals_ok ps (s.votes.totals_by_polls ids w.votes).0 rows h in
      subst (IsDashboard owner w) is (
        subst
            (IsPage (λ p. p.owner_id == owner) (λ p. p.created_at) dashboard_limit
              (s.polls.polls w.polls))
            (sym (polls_of t ps)) (law ps refl),
        totals-All w t ids ps (s.votes.totals_tally ids w.votes t e) (λ p m. m),
      )
    where
      polls_of :
          (t : ObjectId → Int64) (ps : List Poll)
          → map
              (λ (r : PollWithTotal). r.poll)
              (map (λ (p : Poll). record { poll = p; total_votes = t p.id }) ps)
            ≡ ps
      polls_of t [] = refl
      polls_of t (p ∷ ps) = ap (λ qs. p ∷ qs) (polls_of t ps)

  -- A dashboard that `ListForOwner` returns lists the owner's stored polls, the newest first, at most
  -- 100 of them and all where there are fewer, each with the number of its stored votes, modulo 2^64,
  -- as its total.
  pub list_for_owner-IsDashboard :
      (owner : ObjectId) (w : World s) (rows : List PollWithTotal)
      → (list_for_owner owner w).0 ≡ ok rows
      → IsDashboard owner w rows
  unfolding list_for_owner
  list_for_owner-IsDashboard owner w rows h =
      listed-IsDashboard owner w _ _ rows
        (λ ps e. s.polls.list_page owner dashboard_limit w.polls ps e) h
