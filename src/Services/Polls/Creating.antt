-- ===== src/Services/Polls/Creating.antt =====
-- The poll that `Create` returns (backend/internal/services/poll_service.go).
use live_polling.Prelude.{
  ◌≡◌, ◌<◌, ◌≤◌, ◌+◌, refl, sym, ap, subst, ◌∙◌, true, false, Option, none, some, List, [], ◌∷◌,
  map, arith, Str, length, ltb, leb, All, is_empty, if_elim,
}
use live_polling.Apperr.{Attempt, done, failed, done-injective, Result, ok}
use live_polling.Models.{ObjectId, Time, Poll, PollOption, PollStatus}
use live_polling.Validation.{Validator, add, valid, question, options, clean_options}
use live_polling.Validation.Text.{clean_text}
use live_polling.Validation.Accepted.{Different, add_invalid, question_accepted, options_accepted}
use live_polling.Services.World.{Stores, World}
use live_polling.Services.Polls.{
  CreatePollInput, max_poll_lifetime, mint, with_option, validate_expiry, new_options, create_from,
  create,
}

abbrev pub texts_of : List PollOption → List Str
texts_of = map λ o. o.text

-- What a poll with the input of `Create` is, where the clock reads `now`.
pub record IsRequested (s : Stores) (owner : ObjectId) (input : CreatePollInput) (now : Time)
    (p : Poll) : Type 0 where
  pub owner_id : p.owner_id ≡ owner
  pub status : p.status ≡ PollStatus.active
  pub question : p.question ≡ clean_text input.question
  pub question_length : (3 ≤ length p.question) × (length p.question ≤ 300)
  pub options : texts_of p.options ≡ clean_options input.options
  pub options_length : (2 ≤ length (texts_of p.options)) × (length (texts_of p.options) ≤ 10)
  pub options_nonempty : All (λ o. is_empty o ≡ false) (texts_of p.options)
  pub options_short : All (λ o. length o ≤ 120) (texts_of p.options)
  pub options_differ : Different s.lower s.parse_address (texts_of p.options) []
  pub expires : (t : Time) → p.expires_at ≡ some t → (now < t) × (t ≤ now + max_poll_lifetime)

with_option_texts :
    (id text : Str) (a : Attempt (List PollOption)) (opts : List PollOption) (texts : List Str)
    → with_option id text a ≡ done opts
    → ((rest : List PollOption) → a ≡ done rest → texts_of rest ≡ texts)
    → texts_of opts ≡ text ∷ texts
with_option_texts id text (failed c) opts texts h rest = cc
with_option_texts id text (done os) opts texts h rest =
    ap texts_of (sym (done-injective h)) ∙ ap (λ ts. text ∷ ts) (rest os refl)

module _ (s : Stores) where
  new_options_texts :
      (texts : List Str) (w : World s) (opts : List PollOption)
      → (new_options s texts w).0 ≡ done opts
      → texts_of opts ≡ texts
  unfolding new_options
  new_options_texts [] w opts = λ h. ap texts_of (sym (done-injective h))
  new_options_texts (text ∷ texts) w opts =
      elim (s.option_ids.mint w.random).0
        as (λ x.
          (elim x as (λ _. Attempt (List PollOption) × World s) [
            | done i ↦ (
              with_option i text (new_options s texts (mint s w).1).0,
              (new_options s texts (mint s w).1).1,
            )
            | failed c ↦ (failed c, (mint s w).1)
          ]).0
            ≡ done opts
          → texts_of opts ≡ text ∷ texts) [
            | done i ↦ λ h.
                with_option_texts i text _ opts texts h
                  (λ rest e. new_options_texts texts (mint s w).1 rest e)
            | failed c ↦ λ h. cc
          ]

  validate_expiry_ok :
      (e : Option Time) (v : Validator) (w : World s)
      → valid (validate_expiry s e v w).1 ≡ true
      → (valid v ≡ true)
        × ((t : Time)
            → (validate_expiry s e v w).0 ≡ some t
            → ((s.clock.now w.clock).0 < t) × (t ≤ (s.clock.now w.clock).0 + max_poll_lifetime))
  unfolding validate_expiry
  validate_expiry_ok none v w = λ h. (h, λ t e. cc)
  validate_expiry_ok (some x) v w =
      if_elim P (leb x now) _ _ (λ _ h. absurd (wrong "The closing time must be in the future." h))
        (λ later.
          if_elim P (ltb (now + max_poll_lifetime) x) _ _
            (λ _ h. absurd (wrong "A poll can stay open for at most 30 days." h))
            (λ near h. (h, λ t e. ground arith)))
    where
      now : Time
      now = (s.clock.now w.clock).0

      P : Option Time × Validator × World s → Type 0
      P q =
          valid q.1 ≡ true
          → (valid v ≡ true)
            × ((t : Time) → q.0 ≡ some t → (now < t) × (t ≤ now + max_poll_lifetime))

      wrong : (m : _) → valid (add "expiresAt" m v) ≡ true → ⊥
      wrong m h = ground (arith, add_invalid "expiresAt" m v)

  create_from_ok :
      (owner : ObjectId) (q : Str) (expiry : Option Time) (a : Attempt (List PollOption))
      (w : World s) (p : Poll)
      → (create_from s owner q expiry a w).0 ≡ ok p
      → (a ≡ done p.options)
        × (p.owner_id ≡ owner)
        × (p.status ≡ PollStatus.active)
        × (p.question ≡ q)
        × (p.expires_at ≡ expiry)
  unfolding create_from
  create_from_ok owner q expiry (failed c) w p h = cc
  create_from_ok owner q expiry (done opts) w p h =
      let (i, e) = s.polls.create_ok _ p w.polls h in
      (
        ap (λ (x : Poll). done x.options) (sym e),
        ap (λ (x : Poll). x.owner_id) e,
        ap (λ (x : Poll). x.status) e,
        ap (λ (x : Poll). x.question) e,
        ap (λ (x : Poll). x.expires_at) e,
      )

  -- A poll that `Create` returns is the caller's and active, its question is the cleaned question and
  -- has 3 to 300 characters, its options have the cleaned labels without the empty ones, in order,
  -- which are 2 to 10, each of 1 to 120 characters and all different in lower case, and a closing time
  -- is after the instant that the clock reads and at most 30 days after it.
  pub create-IsRequested :
      (owner : ObjectId) (input : CreatePollInput) (w : World s) (p : Poll)
      → (create s owner input w).0 ≡ ok p
      → IsRequested s owner input (s.clock.now w.clock).0 p
  unfolding create
  create-IsRequested owner input w p =
      if_elim {A = Result Poll × World s}
        (λ r. r.0 ≡ ok p → IsRequested s owner input (s.clock.now w.clock).0 p) (valid x.1) _ _ made
        (λ _ h. cc)
    where
      q : Str × Validator
      q = question "question" input.question []

      o : List Str × Validator
      o = options s.lower s.parse_address "options" input.options q.1

      x : Option Time × Validator × World s
      x = validate_expiry s input.expires_at o.1 w

      made :
          valid x.1 ≡ true
          → (create_from s owner q.0 x.0 (new_options s o.0 x.2).0 (new_options s o.0 x.2).1).0
            ≡ ok p
          → IsRequested s owner input (s.clock.now w.clock).0 p
      made sound h =
          let (minted, own, active, same_question, same_expiry) =
            create_from_ok owner q.0 x.0 (new_options s o.0 x.2).0 (new_options s o.0 x.2).1 p h in
          let (read, window) = validate_expiry_ok input.expires_at o.1 w sound in
          let labels : texts_of p.options ≡ o.0 = new_options_texts o.0 x.2 p.options minted in
          let (cleaned, least, most, nonempty, short, differ, asked) =
            options_accepted s.lower s.parse_address "options" input.options q.1 read in
          let (clean, low, high, _) = question_accepted "question" input.question [] asked in
          record {
            owner_id = own;
            status = active;
            question = same_question ∙ clean;
            question_length =
                subst (λ t. (3 ≤ length t) × (length t ≤ 300)) (sym same_question) (low, high);
            options = labels ∙ cleaned;
            options_length =
                subst (λ ts. (2 ≤ length ts) × (length ts ≤ 10)) (sym labels) (least, most);
            options_nonempty = subst (All (λ t. is_empty t ≡ false)) (sym labels) nonempty;
            options_short = subst (All (λ t. length t ≤ 120)) (sym labels) short;
            options_differ =
                subst (λ ts. Different s.lower s.parse_address ts []) (sym labels) differ;
            expires = λ t e. window t (sym same_expiry ∙ e);
          }
