-- ===== src/Services/Sample.antt =====
-- Collaborators of the services at which their theorems are applied: collections and a Redis server
-- in memory, two polls, and a clock that ticks once at each reading.
use live_polling.Prelude.{
  inr, reject, length, Int64, subst, ◌&&◌, ℕ, suc, ◌≡◌, refl, inl, true, Option, none, some, List,
  [], ◌∷◌, ◌++◌, Str, codes, ◌==◌, find, find-some, Member, ap, ◌⊎◌, ==_iff, sym,
}
use live_polling.Apperr.{
  Cause, Code, Error, new, Attempt, done, failed, Result, ok, err, ok-injective, err-injective,
}
use live_polling.Repositories.Polls.{updated}
use live_polling.Models.{ObjectId, Poll, PollStatus, Vote}
use live_polling.Mongo.{IsPage}
use live_polling.Mongo.Memory.Pages.{page, page-IsPage}
use live_polling.Mongo.Memory as mongo
use live_polling.Mongo.Memory.{Memory}
use live_polling.Redis.Memory as redis
use live_polling.Repositories.Votes.{vote_keyed}
use live_polling.Repositories.Votes.Filling.{vote_store}
use live_polling.Redis.Counters.Filling.{live_counters}
use live_polling.Events.Tests.{plain_codec}
use live_polling.Services.Stores.{ObjectIds, Clock, PollStore, EventPublisher}
use live_polling.Services.World.{Stores, World}

abbrev pub lunch : Poll
lunch = record {
  id = 7;
  owner_id = 1;
  question = codes "Where to?";
  options =
      record { id = codes "a1"; text = codes "Pizza" }
      ∷ record { id = codes "b2"; text = codes "Sushi" }
      ∷ [];
  status = PollStatus.active;
  created_at = 10;
  updated_at = 10;
  expires_at = some 100;
}

-- The text of an identifier: its number as one rune.
abbrev pub from_hex : Str → Attempt ObjectId
from_hex (i ∷ []) = done i
from_hex s = failed (Cause.other 0)

abbrev pub ids : ObjectIds
ids = record { hex = λ i. i ∷ []; from_hex = from_hex; from_hex-hex = λ i. refl }

abbrev pub clock : Clock
clock = record { Db = ℕ; now = λ t. (t, suc t) }

abbrev found : Option Poll → Result Poll
found none = err (new Code.not_found "Poll not found.")
found (some p) = ok p

abbrev find_from : Attempt ObjectId → List Poll → Result Poll
find_from (failed c) d = err (new Code.not_found "That link is not valid.")
find_from (done i) d = found (find (λ p. p.id == i) d)

found-some : (o : Option Poll) (p : Poll) → found o ≡ ok p → o ≡ some p
found-some none p h = cc
found-some (some q) p h = ap some (ok-injective h)

pub find_ok :
    (a : Attempt ObjectId) (d : List Poll) (p : Poll)
    → find_from a d ≡ ok p
    → (a ≡ done p.id) × Member p d
find_ok (failed c) d p h = cc
find_ok (done i) d p h =
    let (here, m) = find-some (λ q. q.id == i) d p (found-some _ p h) in
    (ap done (sym ((==_iff p.id i).0 here)), m)

found_err : (o : Option Poll) (e : Error) → found o ≡ err e → e.code ≡ Code.not_found
found_err none e h = ap (λ x. x.code) (sym (err-injective h))
found_err (some p) e h = cc

pub find_err :
    (a : Attempt ObjectId) (d : List Poll) (e : Error)
    → find_from a d ≡ err e
    → (e.code ≡ Code.not_found) ⊎ (e.code ≡ Code.internal)
find_err (failed c) d e h = inl (ap (λ x. x.code) (sym (err-injective h)))
find_err (done i) d e h = inl (found_err _ e h)

abbrev list_from : ObjectId → Int64 → List Poll → List Poll
list_from owner = page (λ p. p.owner_id == owner) (λ p. p.created_at)

abbrev polls : PollStore ids
polls = record {
  Db = List Poll;
  polls = λ d. d;
  find_by_id = λ h d. (find_from (from_hex h) d, d);
  find_ok = λ h d p. find_ok (from_hex h) d p;
  find_err = λ h d e. find_err (from_hex h) d e;
  find_reads = λ h d. refl;
  create =
      λ p d. (ok (record p { id = suc (length d) }), d ++ record p { id = suc (length d) } ∷ []);
  update = λ id owner u d. (
    found (find (λ p. p.id == id && p.owner_id == owner) (updated id owner u 50 d)),
    updated id owner u 50 d,
  );
  delete = λ id owner d. (ok tt, reject (λ p. p.id == id && p.owner_id == owner) d);
  create_ok = λ p p' d h. (suc (length d), sym (ok-injective h));
  update_lem = λ id owner u d. inr (50, refl);
  list_by_owner = λ owner limit d. (ok (list_from owner limit d), d);
  list_page = λ owner limit d ps h.
      subst (IsPage _ _ limit d) (ok-injective h)
        (page-IsPage (λ p. p.owner_id == owner) (λ p. p.created_at) limit d);
}

abbrev bus : EventPublisher
bus = record {
  Db = List (Str × Str);
  published = λ d. d;
  publish_poll_update = λ k payload d. (done tt, d ++ (k, payload) ∷ []);
  publish_lem = λ k payload d. inl refl;
}

abbrev pub site : Stores
site = record {
  ids = ids;
  codec = plain_codec;
  polls = polls;
  votes = vote_store (mongo.memory vote_keyed);
  counters = live_counters redis.memory;
  bus = bus;
  clock = clock;
  option_ids = record { Db = ℕ; mint = λ n. (done (n ∷ []), suc n) };
  lower = λ c. c;
  parse_address = done;
  has_counters = true;
  has_broadcast = true;
  has_publisher = true;
  has_results = true;
  has_announcer = true;
}

abbrev pub stored_vote : Vote
stored_vote = record {
  id = 0;
  poll_id = 7;
  option_id = codes "a1";
  voter_id = codes "v1";
  created_at = 20;
}

-- One vote is stored, and the counters are cold.
abbrev pub morning : World site
morning = record {
  polls = lunch ∷ [];
  votes = record { docs = stored_vote ∷ []; next_id = 1; faults = [] };
  counters = record { hashes = λ k. []; trips = [] };
  bus = [];
  clock = 30;
  random = 1;
}
