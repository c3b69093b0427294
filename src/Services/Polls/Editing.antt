-- ===== src/Services/Polls/Editing.antt =====
-- What a call of `Update` does to the polls (backend/internal/services/poll_service.go).
use live_polling.Prelude.{
  ◌+◌, ◌≡◌, refl, sym, ap, subst, ◌∙◌, ◌⊎◌, inl, inr, false, not, ◌||◌, Option, none, some, List,
  [], ◌∷◌, arith, Str, Dict, count, ◌==◌, ==_iff, Int64, int64, is_positive, ltb, leb, if_elim,
  Option-cases,
}
use live_polling.Apperr.{Attempt, done, failed, done-injective, Result, ok, err, ok-injective}
use live_polling.Models.{ObjectId, Time, Poll, PollOption, Vote}
use live_polling.Validation.{Validator, valid, options}
use live_polling.Repositories.Polls.{PollUpdate, updated}
use live_polling.Services.World.{Stores, World}
use live_polling.Services.Polls.{
  forbidden, mint, with_option, UpdatePollInput, Draft, is_set, owned_by, validate_expiry, kept_id,
  rebuild_from, rebuild_options, ids_by_text, drafted, draft_question, draft_options, write_update,
  update_content, update_counted, update_owned, get_owned, update, max_poll_lifetime,
}

-- The poll has no votes.
abbrev pub Unvoted : ObjectId → List Vote → Type 0
Unvoted p vs = is_positive (int64 (count (λ v. v.poll_id == p) vs)) ≡ false

-- What a call of `Update` may do to the polls: nothing, or one update of the poll that the lookup
-- found, which is the caller's, that leaves its status alone, and leaves its question and options
-- alone unless the poll has no votes.
pub data Edit (owner : ObjectId) (found : Result Poll) (vs : List Vote) (before after : List Poll)
    : Type 0 where
  unchanged : after ≡ before → Edit owner found vs before after
  edits :
      (p : Poll) (u : PollUpdate) (now : Time)
      → found ≡ ok p
      → p.owner_id ≡ owner
      → u.status ≡ none
      → ((u.question ≡ none) × (u.options ≡ none)) ⊎ Unvoted p.id vs
      → after ≡ updated p.id owner u now before
      → Edit owner found vs before after

none_set {ℓ} : {A : Type ℓ} (o : Option A) → is_set o ≡ false → o ≡ none
none_set none h = refl
none_set (some a) h = cc

pub owned_by_ok :
    (owner : ObjectId) (found : Result Poll) (p : Poll)
    → owned_by owner found ≡ ok p
    → (found ≡ ok p) × (p.owner_id ≡ owner)
unfolding owned_by
owned_by_ok owner (err e) p = λ h. cc
owned_by_ok owner (ok q) p =
    if_elim {A = Result Poll}
      (λ r. r ≡ ok p → ((◌≡◌ {A = Result Poll} (ok q) (ok p)) × (p.owner_id ≡ owner)))
      (q.owner_id == owner) (ok q) (err forbidden)
      (λ own h. (
        h,
        subst (λ (x : Poll). x.owner_id ≡ owner) (ok-injective h) ((==_iff q.owner_id owner).0 own),
      ))
      (λ _ h. cc)

module _ (s : Stores) where
  validate_expiry_polls :
      (e : Option Time) (v : Validator) (w : World s) → (validate_expiry s e v w).2.polls ≡ w.polls
  unfolding validate_expiry
  validate_expiry_polls none v w = refl
  validate_expiry_polls (some t) v w =
      if_elim {A = Option Time × Validator × World s} (λ q. q.2.polls ≡ w.polls)
        (leb t (s.clock.now w.clock).0) _ _ (λ _. refl)
        (λ _.
          if_elim {A = Option Time × Validator × World s} (λ q. q.2.polls ≡ w.polls)
            (ltb ((s.clock.now w.clock).0 + max_poll_lifetime) t) _ _ (λ _. refl) (λ _. refl))

  rebuild_from_polls :
      (existing : Dict Str) (used texts : List Str) (w : World s)
      → (rebuild_from s existing used texts w).1.polls ≡ w.polls
  unfolding rebuild_from
  rebuild_from_polls existing used [] w = refl
  rebuild_from_polls existing used (text ∷ texts) w =
      elim (Option-cases (kept_id existing used text)) [
        | inl e ↦
            rw (rebuild_from, e)
              (elim (s.option_ids.mint w.random).0
                as (λ x.
                  (elim x as (λ _. Attempt (List PollOption) × World s) [
                    | done id ↦ (
                      with_option id text
                          (rebuild_from s existing (id ∷ used) texts (mint s w).1).0,
                      (rebuild_from s existing (id ∷ used) texts (mint s w).1).1,
                    )
                    | failed c ↦ (failed c, (mint s w).1)
                  ]).1.polls
                  ≡ w.polls) [
                    | done id ↦ rebuild_from_polls existing (id ∷ used) texts (mint s w).1
                    | failed c ↦ refl
                  ])
        | inr (id, e) ↦ rw (rebuild_from, e) (rebuild_from_polls existing (id ∷ used) texts w)
      ]

  draft_options_polls :
      (p : Poll) (values : Option (List Str)) (d : Draft) (w : World s)
      → (draft_options s p values d w).1.polls ≡ w.polls
  unfolding draft_options rebuild_options
  draft_options_polls p none d w = refl
  draft_options_polls p (some values) d w =
      if_elim {A = Attempt Draft × World s} (λ q. q.1.polls ≡ w.polls) (valid read.1)
        (drafted s d read.1 (rebuild_options s p read.0 w).0, (rebuild_options s p read.0 w).1)
        (done (record d { complaints = read.1 }), w)
        (λ _. rebuild_from_polls (ids_by_text p.options []) [] read.0 w) (λ _. refl)
    where
      read : List Str × Validator
      read = options s.lower s.parse_address "options" values d.complaints

  module _ (owner : ObjectId) (vs : List Vote) where
    write_update-Edit :
        (p : Poll) (input : UpdatePollInput) (a : Attempt Draft) (w : World s)
        → p.owner_id ≡ owner
        → ((d : Draft) → a ≡ done d → ((d.question ≡ none) × (d.options ≡ none)) ⊎ Unvoted p.id vs)
        → Edit owner
            (ok p)
            vs
            (s.polls.polls w.polls)
            (s.polls.polls (write_update s owner p input a w).1.polls)
    unfolding write_update
    write_update-Edit p input (failed c) w own content = unchanged refl
    write_update-Edit p input (done d) w own content =
        if_elim P (not (valid v)) _ _ (λ _. unchanged same)
          (λ _.
            if_elim P
              (not (is_set u.question || is_set u.options || is_set u.expires_at || u.clear_expiry))
              _ _ (λ _. unchanged same)
              (λ _. elim (s.polls.update_lem p.id owner u w'.polls) [
                | inl kept ↦ unchanged (kept ∙ same)
                | inr (now, e) ↦
                    edits p u now refl own refl (content d refl)
                      (e ∙ ap (updated p.id owner u now) same)
              ]))
      where
        P : Result Poll × World s → Type 0
        P q = Edit owner (ok p) vs (s.polls.polls w.polls) (s.polls.polls q.1.polls)

        w' : World s
        w' = (validate_expiry s input.expires_at d.complaints w).2

        v : Validator
        v = (validate_expiry s input.expires_at d.complaints w).1

        u : PollUpdate
        u = record {
          question = d.question;
          options = d.options;
          status = none;
          expires_at = (validate_expiry s input.expires_at d.complaints w).0;
          clear_expiry = input.clear_expiry;
        }

        same : s.polls.polls w'.polls ≡ s.polls.polls w.polls
        same = ap s.polls.polls (validate_expiry_polls input.expires_at d.complaints w)

    draft-unset :
        (p : Poll) (input : UpdatePollInput) (w : World s) (d : Draft)
        → input.question ≡ none
        → input.options ≡ none
        → (draft_options s p input.options (draft_question s input.question) w).0 ≡ done d
        → (d.question ≡ none) × (d.options ≡ none)
    unfolding draft_options draft_question
    draft-unset p input w d q o h = unset (
        subst (λ x. (draft_options s p x (draft_question s none) w).0 ≡ done d) o
          (subst (λ x. (draft_options s p input.options (draft_question s x) w).0 ≡ done d) q h))
      where
        unset :
            (draft_options s p none (draft_question s none) w).0 ≡ done d
            → (d.question ≡ none) × (d.options ≡ none)
        unset e = (
          ap (λ (x : Draft). x.question) (sym (done-injective e)),
          ap (λ (x : Draft). x.options) (sym (done-injective e)),
        )

    update_content-Edit :
        (p : Poll) (input : UpdatePollInput) (w : World s)
        → p.owner_id ≡ owner
        → ((input.question ≡ none) × (input.options ≡ none)) ⊎ Unvoted p.id vs
        → Edit owner
            (ok p)
            vs
            (s.polls.polls w.polls)
            (s.polls.polls (update_content s owner p input w).1.polls)
    unfolding update_content
    update_content-Edit p input w own content =
        let d = draft_options s p input.options (draft_question s input.question) w in
        subst
          (λ x.
            Edit owner (ok p) vs (s.polls.polls x)
              (s.polls.polls (write_update s owner p input d.0 d.1).1.polls))
          (draft_options_polls p input.options (draft_question s input.question) w)
          (write_update-Edit p input d.0 d.1 own (λ x e. elim content [
            | inl unset ↦ inl (draft-unset p input w x unset.0 unset.1 e)
            | inr fresh ↦ inr fresh
          ]))

    update_counted-Edit :
        (p : Poll) (input : UpdatePollInput) (n : Result Int64) (w : World s)
        → p.owner_id ≡ owner
        → ((m : Int64) → n ≡ ok m → m ≡ int64 (count (λ v. v.poll_id == p.id) vs))
        → Edit owner
            (ok p)
            vs
            (s.polls.polls w.polls)
            (s.polls.polls (update_counted s owner p input n w).1.polls)
    unfolding update_counted
    update_counted-Edit p input (err e) w own counts = unchanged refl
    update_counted-Edit p input (ok m) w own counts =
        if_elim {A = Result Poll × World s}
          (λ q. Edit owner (ok p) vs (s.polls.polls w.polls) (s.polls.polls q.1.polls))
          (is_positive m) _ _ (λ _. unchanged refl)
          (λ zero.
            update_content-Edit p input w own
              (inr (subst (λ x. is_positive x ≡ false) (counts m refl) zero)))

-- Whatever `Update` returns, it has left the polls alone, or it has updated one: the poll that the
-- lookup found, which is the caller's; its status stays, and its question and options stay too unless
-- the poll has no votes when they are counted.
pub update-Edit :
    (s : Stores) (owner : ObjectId) (poll_id : Str) (input : UpdatePollInput) (w : World s)
    → Edit owner
        (s.polls.find_by_id poll_id w.polls).0
        (s.votes.votes w.votes)
        (s.polls.polls w.polls)
        (s.polls.polls (update s owner poll_id input w).1.polls)
unfolding update get_owned update_owned
update-Edit s owner poll_id input w =
    subst
      (λ x.
        Edit owner found vs x
          (s.polls.polls (update_owned s owner input (owned_by owner found) w₁).1.polls))
      (s.polls.find_reads poll_id w.polls) (from (owned_by owner found) refl)
  where
    found : Result Poll
    found = (s.polls.find_by_id poll_id w.polls).0

    vs : List Vote
    vs = s.votes.votes w.votes

    w₁ : World s
    w₁ = record w { polls = (s.polls.find_by_id poll_id w.polls).1 }

    from :
        (r : Result Poll)
        → owned_by owner found ≡ r
        → Edit owner found vs
            (s.polls.polls w₁.polls)
            (s.polls.polls (update_owned s owner input r w₁).1.polls)
    from (err e) h = unchanged refl
    from (ok p) h =
        let (is, own) = owned_by_ok owner found p h in
        subst
          (λ f.
            Edit owner f vs (s.polls.polls w₁.polls)
              (s.polls.polls (update_owned s owner input (ok p) w₁).1.polls))
          (sym is)
          (if_elim {A = Result Poll × World s}
            (λ q. Edit owner (ok p) vs (s.polls.polls w₁.polls) (s.polls.polls q.1.polls))
            (is_set input.question || is_set input.options) _ _
            (λ _.
              update_counted-Edit s owner vs p input (s.votes.count_by_poll p.id w.votes).0
                (record w₁ { votes = (s.votes.count_by_poll p.id w.votes).1 }) own
                (λ m e. s.votes.count_lem p.id w.votes m e))
            (λ none. update_content-Edit s owner vs p input w₁ own (
              inl (
                none_set input.question (ground (arith, none)),
                none_set input.options (ground (arith, none)),
              ))))
