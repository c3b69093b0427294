-- ===== src/Services/Polls.antt =====
-- `PollService`: backend/internal/services/poll_service.go.
pub mod Editing
pub mod Creating
pub mod Deleting
pub mod Listing
mod Tests
use live_polling.Prelude.{
  ℕ, ◌+◌, ◌*◌, Bool, true, false, not, ◌||◌, Option, none, some, List, [], ◌∷◌, Str, str_eq, Dict,
  lookup, insert, any, ltb, leb, ◌==◌, Int64, is_positive, if◌then◌else◌,
}
use live_polling.Apperr.{Code, Error, new, wrap, invalid, Attempt, done, failed, Result, ok, err}
use live_polling.Models.{ObjectId, Time, Poll, PollOption, PollStatus, is_closed}
use live_polling.Validation.{Validator, add, valid, question, options}
use live_polling.Repositories.Polls.{PollUpdate}
use live_polling.Services.World.{Stores, World, Action}
use live_polling.Services.Results.{delete_results}
use live_polling.Services.Realtime.{announce_poll}

-- `MaxPollLifetime`, in nanoseconds.
abbrev pub max_poll_lifetime : ℕ
max_poll_lifetime = 30 * 24 * 3600 * 1000000000

-- `CreatePollInput`
pub record CreatePollInput : Type 0 where
  pub question : Str
  pub options : List Str
  pub expires_at : Option Time

-- `UpdatePollInput`
pub record UpdatePollInput : Type 0 where
  pub question : Option Str
  pub options : Option (List Str)
  pub expires_at : Option Time
  pub clear_expiry : Bool

abbrev pub is_set {ℓ} : {A : Type ℓ} → Option A → Bool
is_set none = false
is_set (some a) = true

abbrev pub incorrect : Validator → Error
incorrect v = invalid "Please correct the highlighted fields." v

abbrev pub forbidden : Error
forbidden = new Code.forbidden "You do not have access to this poll."

abbrev pub frozen : Error
frozen =
    new Code.conflict
      "This poll already has votes, so its question and options can no longer be changed."

-- The check of `GetOwned` on the poll that was looked up.
unfoldable pub owned_by : ObjectId → Result Poll → Result Poll
owned_by owner (err e) = err e
owned_by owner (ok p) = if p.owner_id == owner then ok p else err forbidden

-- The map of `rebuildOptions` from the texts of a poll's options to their ids.
unfoldable pub ids_by_text : List PollOption → Dict Str → Dict Str
ids_by_text [] m = m
ids_by_text (o ∷ opts) m = ids_by_text opts (insert o.text o.id m)

-- The id that an option keeps: that of its text, unless it has been used.
unfoldable pub kept_id : Dict Str → List Str → Str → Option Str
kept_id existing used text = elim (lookup text existing) [
  | none ↦ none
  | some id ↦ if any (str_eq id) used then none else some id
]

abbrev pub with_option : Str → Str → Attempt (List PollOption) → Attempt (List PollOption)
with_option id text (failed c) = failed c
with_option id text (done opts) = done (record { id = id; text = text } ∷ opts)

-- What an update has to write, as far as the input has been read: the question, the options and the
-- complaints.
pub record Draft : Type 0 where
  pub question : Option Str
  pub options : Option (List PollOption)
  pub complaints : Validator

module _ (s : Stores) where
  -- `newOptionID`
  abbrev pub mint : World s → Attempt Str × World s
  mint w = let (id, r) = s.option_ids.mint w.random in (id, record w { random = r })

  -- `validateExpiry`
  unfoldable pub validate_expiry :
      Option Time → Validator → World s → Option Time × Validator × World s
  validate_expiry none v w = (none, v, w)
  validate_expiry (some expiry) v w =
      let (now, clock) = s.clock.now w.clock in
      let w' : World s = record w { clock = clock } in
      if leb expiry now
      then (none, add "expiresAt" "The closing time must be in the future." v, w')
      else if ltb (now + max_poll_lifetime) expiry
      then (none, add "expiresAt" "A poll can stay open for at most 30 days." v, w')
      else (some expiry, v, w')

  -- The loop of `Create` over the labels: it ends at the first id that cannot be had.
  unfoldable pub new_options : List Str → World s → Attempt (List PollOption) × World s
  new_options [] w = (done [], w)
  new_options (text ∷ texts) w =
      let (id, w₁) = mint w in
      let (rest, w₂) = new_options texts w₁ in
      elim id [ failed c ↦ (failed c, w₁) | done i ↦ (with_option i text rest, w₂) ]

  -- `Create` once the options have their ids.
  unfoldable pub create_from :
      ObjectId → Str → Option Time → Attempt (List PollOption) → Action s Poll
  create_from owner q expiry (failed c) w =
      (err (wrap Code.internal "Could not create the poll." c), w)
  create_from owner q expiry (done opts) w =
      let (now, clock) = s.clock.now w.clock in
      let poll : Poll = record {
        id = 0;
        owner_id = owner;
        question = q;
        options = opts;
        status = PollStatus.active;
        created_at = now;
        updated_at = now;
        expires_at = expiry;
      } in
      let (stored, polls) = s.polls.create poll w.polls in
      (stored, record w { clock = clock; polls = polls })

  -- `PollService.Create`
  unfoldable pub create : ObjectId → CreatePollInput → Action s Poll
  unfolding new_options create_from validate_expiry
  create owner input w =
      let (q, v₁) = question "question" input.question [] in
      let (texts, v₂) = options s.lower s.parse_address "options" input.options v₁ in
      let (expiry, v₃, w₁) = validate_expiry input.expires_at v₂ w in
      let (opts, w₂) = new_options texts w₁ in
      if valid v₃ then create_from owner q expiry opts w₂ else (err (incorrect v₃), w₁)

  -- `PollService.GetOwned`
  unfoldable pub get_owned : ObjectId → Str → Action s Poll
  unfolding owned_by
  get_owned owner poll_id w =
      let (found, polls) = s.polls.find_by_id poll_id w.polls in
      (owned_by owner found, record w { polls = polls })

  -- The loop of `rebuildOptions`.
  unfoldable pub rebuild_from :
      Dict Str → List Str → List Str → World s → Attempt (List PollOption) × World s
  unfolding kept_id
  rebuild_from existing used [] w = (done [], w)
  rebuild_from existing used (text ∷ texts) w = elim (kept_id existing used text) [
    | some id ↦
        let (rest, w₁) = rebuild_from existing (id ∷ used) texts w in (with_option id text rest, w₁)
    | none ↦
        let (minted, w₁) = mint w in
        elim minted [
          | failed c ↦ (failed c, w₁)
          | done id ↦
              let (rest, w₂) = rebuild_from existing (id ∷ used) texts w₁ in
              (with_option id text rest, w₂)
        ]
  ]

  -- `rebuildOptions`
  unfoldable pub rebuild_options : Poll → List Str → World s → Attempt (List PollOption) × World s
  unfolding ids_by_text rebuild_from
  rebuild_options poll = rebuild_from (ids_by_text poll.options []) []

  -- The question of `Update`.
  unfoldable pub draft_question : Option Str → Draft
  draft_question none = record { question = none; options = none; complaints = [] }
  draft_question (some text) =
      let (q, v) = question "question" text [] in
      record { question = some q; options = none; complaints = v }

  drafted : Draft → Validator → Attempt (List PollOption) → Attempt Draft
  drafted d v (failed c) = failed c
  drafted d v (done opts) = done (record d { options = some opts; complaints = v })

  -- The options of `Update`, which get their ids only where there is no complaint.
  unfoldable pub draft_options :
      Poll → Option (List Str) → Draft → World s → Attempt Draft × World s
  unfolding rebuild_options drafted
  draft_options poll none d w = (done d, w)
  draft_options poll (some values) d w =
      let (texts, v) = options s.lower s.parse_address "options" values d.complaints in
      let (opts, w') = rebuild_options poll texts w in
      if valid v then (drafted d v opts, w') else (done (record d { complaints = v }), w)

  -- The end of `Update`.
  unfoldable pub write_update : ObjectId → Poll → UpdatePollInput → Attempt Draft → Action s Poll
  unfolding validate_expiry
  write_update owner poll input (failed c) w =
      (err (wrap Code.internal "Could not update the poll." c), w)
  write_update owner poll input (done d) w =
      let (expiry, v, w') = validate_expiry input.expires_at d.complaints w in
      let u : PollUpdate = record {
        question = d.question;
        options = d.options;
        status = none;
        expires_at = expiry;
        clear_expiry = input.clear_expiry;
      } in
      let (stored, polls) = s.polls.update poll.id owner u w'.polls in
      if not (valid v)
      then (err (incorrect v), w')
      else if not (is_set u.question || is_set u.options || is_set u.expires_at || u.clear_expiry)
      then (err (new Code.validation "There is nothing to update."), w')
      else (stored, record w' { polls = polls })

  -- `Update` once its content may change.
  unfoldable pub update_content : ObjectId → Poll → UpdatePollInput → Action s Poll
  unfolding draft_question draft_options write_update
  update_content owner poll input w =
      let (d, w') = draft_options poll input.options (draft_question input.question) w in
      write_update owner poll input d w'

  -- The guard of `Update` on the number of votes.
  unfoldable pub update_counted : ObjectId → Poll → UpdatePollInput → Result Int64 → Action s Poll
  unfolding update_content
  update_counted owner poll input (err e) w = (err e, w)
  update_counted owner poll input (ok n) w =
      if is_positive n then (err frozen, w) else update_content owner poll input w

  unfoldable pub update_owned : ObjectId → UpdatePollInput → Result Poll → Action s Poll
  unfolding update_counted
  update_owned owner input (err e) w = (err e, w)
  update_owned owner input (ok poll) w =
      let (n, votes) = s.votes.count_by_poll poll.id w.votes in
      if is_set input.question || is_set input.options
      then update_counted owner poll input n (record w { votes = votes })
      else update_content owner poll input w

  -- `PollService.Update`
  unfoldable pub update : ObjectId → Str → UpdatePollInput → Action s Poll
  unfolding get_owned update_owned
  update owner poll_id input w =
      let (poll, w') = get_owned owner poll_id w in update_owned owner input poll w'

  -- The update of `Close`.
  abbrev pub closing : PollUpdate
  closing = record {
    question = none;
    options = none;
    status = some PollStatus.closed;
    expires_at = none;
    clear_expiry = false;
  }

  closed_stored : Result Poll → Action s Poll
  closed_stored (err e) w = (err e, w)
  closed_stored (ok poll) w = (ok poll, if s.has_announcer then announce_poll s poll w else w)

  close_owned : ObjectId → Result Poll → Action s Poll
  unfolding closed_stored
  close_owned owner (err e) w = (err e, w)
  close_owned owner (ok poll) w =
      let (stored, polls) = s.polls.update poll.id owner closing w.polls in
      if is_closed poll.status
      then (ok poll, w)
      else closed_stored stored (record w { polls = polls })

  -- `PollService.Close`
  unfoldable pub close : ObjectId → Str → Action s Poll
  unfolding get_owned close_owned
  close owner poll_id w = let (poll, w') = get_owned owner poll_id w in close_owned owner poll w'

  -- The end of `Delete`: a failure to discard the counters is only logged.
  delete_counters : Poll → Result (Unit {0}) → Action s (Unit {0})
  delete_counters poll (err e) w = (err e, w)
  delete_counters poll (ok _) w =
      (ok tt, if s.has_results then (delete_results s (s.ids.hex poll.id) w).1 else w)

  delete_votes : Poll → Result (Unit {0}) → Action s (Unit {0})
  unfolding delete_counters
  delete_votes poll (err e) w = (err e, w)
  delete_votes poll (ok _) w =
      let (gone, votes) = s.votes.delete_by_poll poll.id w.votes in
      delete_counters poll gone (record w { votes = votes })

  delete_owned : ObjectId → Result Poll → Action s (Unit {0})
  unfolding delete_votes
  delete_owned owner (err e) w = (err e, w)
  delete_owned owner (ok poll) w =
      let (gone, polls) = s.polls.delete poll.id owner w.polls in
      delete_votes poll gone (record w { polls = polls })

  -- `PollService.Delete`
  unfoldable pub delete : ObjectId → Str → Action s (Unit {0})
  unfolding get_owned delete_owned
  delete owner poll_id w = let (poll, w') = get_owned owner poll_id w in delete_owned owner poll w'
