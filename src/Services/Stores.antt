-- ===== src/Services/Stores.antt =====
-- The interfaces that the services of backend/internal/services take (PollStore, VoteStore,
-- VoteAggregator, VoteCounter, LiveCounters, EventPublisher), each a record of operations on a
-- store of its own, with the laws that a caller relies on. The repositories and the Redis client
-- fill them. An operation returns the store as it leaves it, and each may fail.
use live_polling.Prelude.{
  ℕ, ◌^◌, ◌<◌, ◌≡◌, ◌⊎◌, Bool, true, false, ◌&&◌, Option, none, some, List, [], ◌∷◌, ◌++◌, Str,
  str_eq, Int64, int64, add64, Dict, Distinct, lookup, any, count, All, Member, ◌==◌, is_empty,
  if◌then◌else◌,
}
use live_polling.Apperr.{Code, Cause, Error, Result, ok, err, Attempt, done, failed}
use live_polling.Repositories.Polls.{PollUpdate, updated}
use live_polling.Mongo.{IsPage}
use live_polling.Models.{ObjectId, Time, Poll, Vote, OptionCount}

-- `m[k]` of a Go map of counts, which is zero on a missing key.
abbrev pub count_or_zero : Str → Dict Int64 → Int64
count_or_zero k d = elim (lookup k d) [ none ↦ 0 | some n ↦ n ]

-- The votes that a poll has for one option, and whether a voter has voted in it.
abbrev pub tally : ObjectId → Str → List Vote → ℕ
tally p o = count (λ v. v.poll_id == p && str_eq v.option_id o)

abbrev pub voted : ObjectId → Str → List Vote → Bool
voted p u = any (λ v. v.poll_id == p && str_eq v.voter_id u)

-- bson.ObjectID: its text, and the parser of that text.
pub record ObjectIds : Type 0 where
  pub hex : ObjectId → Str
  pub from_hex : Str → Attempt ObjectId
  pub from_hex-hex : (i : ObjectId) → from_hex (hex i) ≡ done i

-- `newOptionID`, which reads crypto/rand.
pub record OptionIds : Type 1 where
  pub Db : Type 0
  pub mint : Db → Attempt Str × Db

-- `s.now`
pub record Clock : Type 1 where
  pub Db : Type 0
  pub now : Db → Time × Db

-- Rows that are the tally of a poll: a row's count is right, and an option with a vote has a row.
abbrev pub IsTally : ObjectId → List Vote → List OptionCount → Type 0
IsTally p vs rows =
    All (λ r. r.count ≡ int64 (tally p r.option_id vs)) rows
    × ((o : Str) → 0 < tally p o vs → any (λ r. str_eq r.option_id o) rows ≡ true)

-- `with_id v i` is the document as stored.
abbrev pub with_id : Vote → ObjectId → Vote
with_id v i = record v { id = i }

-- `PollStore`, as far as votes need it.
pub record PollStore (ids : ObjectIds) : Type 1 where
  pub Db : Type 0
  pub polls : Db → List Poll
  pub find_by_id : Str → Db → Result Poll × Db
  pub find_ok :
      (h : Str) (d : Db) (p : Poll)
      → (find_by_id h d).0 ≡ ok p
      → (ids.from_hex h ≡ done p.id) × Member p (polls d)
  pub find_err :
      (h : Str) (d : Db) (e : Error)
      → (find_by_id h d).0 ≡ err e
      → (e.code ≡ Code.not_found) ⊎ (e.code ≡ Code.internal)
  pub find_reads : (h : Str) (d : Db) → polls (find_by_id h d).1 ≡ polls d
  pub list_by_owner : ObjectId → Int64 → Db → Result (List Poll) × Db
  pub create : Poll → Db → Result Poll × Db
  pub update : ObjectId → ObjectId → PollUpdate → Db → Result Poll × Db
  pub delete : ObjectId → ObjectId → Db → Result (Unit {0}) × Db
  -- A list holds the owner's polls, the newest first, up to the limit.
  pub list_page :
      (owner : ObjectId) (limit : Int64) (d : Db) (ps : List Poll)
      → (list_by_owner owner limit d).0 ≡ ok ps
      → IsPage (λ p. p.owner_id == owner) (λ p. p.created_at) limit (polls d) ps
  -- A poll that is stored has an id of its own and is otherwise as given.
  pub create_ok :
      (p p' : Poll) (d : Db) → (create p d).0 ≡ ok p' → (i : ObjectId) × (p' ≡ record p { id = i })
  -- An update goes through as a whole or not at all.
  pub update_lem :
      (id owner : ObjectId) (u : PollUpdate) (d : Db)
      → (polls (update id owner u d).1 ≡ polls d)
        ⊎ ((now : Time) × (polls (update id owner u d).1 ≡ updated id owner u now (polls d)))

-- `EventPublisher`. `published` is what has gone out on each poll's channel, the latest last.
pub record EventPublisher : Type 1 where
  pub Db : Type 0
  pub published : Db → List (Str × Str)
  pub publish_poll_update : Str → Str → Db → Attempt (Unit {0}) × Db
  pub publish_lem :
      (k payload : Str) (d : Db)
      → (published (publish_poll_update k payload d).1 ≡ published d ++ (k, payload) ∷ [])
        ⊎ ((c : Cause) × ((publish_poll_update k payload d).0 ≡ failed c)
            × (published (publish_poll_update k payload d).1 ≡ published d))

-- `VoteStore`, `VoteAggregator` and `VoteCounter`.
pub record VoteStore : Type 1 where
  pub Db : Type 0
  pub votes : Db → List Vote
  pub create : Vote → Db → Result Vote × Db
  pub find_by_poll_and_voter : ObjectId → Str → Db → Result Vote × Db
  pub counts_by_poll : ObjectId → Db → Result (List OptionCount) × Db
  pub count_by_poll : ObjectId → Db → Result Int64 × Db
  -- The totals of several polls at once: `totals[p]` of the map that is returned.
  pub totals_by_polls : List ObjectId → Db → Result (ObjectId → Int64) × Db
  pub delete_by_poll : ObjectId → Db → Result (Unit {0}) × Db
  -- A vote that is stored is the voter's first in the poll.
  pub create_ok :
      (v v' : Vote) (d : Db)
      → (create v d).0 ≡ ok v'
      → (voted v.poll_id v.voter_id (votes d) ≡ false)
        × ((i : ObjectId) × (v' ≡ with_id v i))
        × (votes (create v d).1 ≡ votes d ++ v' ∷ [])
  -- A refusal as a duplicate says that the voter has voted. After any other error the vote may or
  -- may not have been stored, since the answer of the database can be lost.
  pub create_err :
      (v : Vote) (d : Db) (e : Error)
      → (create v d).0 ≡ err e
      → ((e.code ≡ Code.already_voted)
          × (voted v.poll_id v.voter_id (votes d) ≡ true)
          × (votes (create v d).1 ≡ votes d))
        ⊎ ((e.code ≡ Code.internal)
            × ((votes (create v d).1 ≡ votes d)
                ⊎ ((i : ObjectId) × (voted v.poll_id v.voter_id (votes d) ≡ false)
                    × (votes (create v d).1 ≡ votes d ++ with_id v i ∷ []))))
  pub counts_tally :
      (p : ObjectId) (d : Db) (rows : List OptionCount)
      → (counts_by_poll p d).0 ≡ ok rows
      → IsTally p (votes d) rows
  pub count_lem :
      (p : ObjectId) (d : Db) (n : Int64)
      → (count_by_poll p d).0 ≡ ok n
      → n ≡ int64 (count (λ v. v.poll_id == p) (votes d))
  pub totals_tally :
      (is : List ObjectId) (d : Db) (t : ObjectId → Int64)
      → (totals_by_polls is d).0 ≡ ok t
      → (p : ObjectId) → any (λ i. i == p) is ≡ true
      → t p ≡ int64 (count (λ v. v.poll_id == p) (votes d))
  pub count_reads : (p : ObjectId) (d : Db) → votes (count_by_poll p d).1 ≡ votes d
  pub counts_reads : (p : ObjectId) (d : Db) → votes (counts_by_poll p d).1 ≡ votes d

-- What one more vote for an option does to the counters that a reader sees: nothing where they are
-- cold, and otherwise it adds one to that option and leaves the others.
abbrev pub Bumped : Str → Option (Dict Int64) → Option (Dict Int64) → Type 0
Bumped o none none = Unit
Bumped o none (some d') = ⊥
Bumped o (some d) none = ⊥
Bumped o (some d) (some d') =
    (x : Str)
    → lookup x d' ≡ (if str_eq o x then some (add64 (count_or_zero o d) 1) else lookup x d)

-- Counters that hold exactly the given ones.
abbrev pub Holds : Dict Int64 → Option (Dict Int64) → Type 0
Holds d none = is_empty d ≡ true
Holds d (some d') = (x : Str) → lookup x d' ≡ lookup x d

-- `LiveCounters`. `standing d k` is what the counters of poll `k` hold: `none` where they are cold.
pub record LiveCounters : Type 1 where
  pub Db : Type 0
  pub standing : Db → Str → Option (Dict Int64)
  pub increment_option : Str → Str → Db → Attempt Bool × Db
  pub results : Str → Db → Attempt (Option (Dict Int64)) × Db
  pub replace_results : Str → Dict Int64 → Db → Attempt (Unit {0}) × Db
  pub delete_results : Str → Db → Attempt (Unit {0}) × Db
  pub results_done :
      (k : Str) (d : Db) (c : Option (Dict Int64)) → (results k d).0 ≡ done c → c ≡ standing d k
  pub results_reads : (k j : Str) (d : Db) → standing (results k d).1 j ≡ standing d j
  -- Warm counters are incremented, and cold ones are left cold.
  pub increment_done :
      (k o : Str) (d : Db) (b : Bool)
      → (increment_option k o d).0 ≡ done b
      → Bumped o (standing d k) (standing (increment_option k o d).1 k)
  pub increment_failed :
      (k o : Str) (d : Db) (c : Cause)
      → (increment_option k o d).0 ≡ failed c
      → (standing (increment_option k o d).1 k ≡ standing d k)
        ⊎ Bumped o (standing d k) (standing (increment_option k o d).1 k)
  pub increment_others :
      (k o j : Str) (d : Db)
      → str_eq j k ≡ false
      → standing (increment_option k o d).1 j ≡ standing d j
  -- The counters are overwritten as a whole, or not at all.
  pub replace_lem :
      (k : Str) (c : Dict Int64) (d : Db)
      → All (λ e. e.1 < 2 ^ 64) c
      → Distinct c
      → Holds c (standing (replace_results k c d).1 k)
        ⊎ ((x : Cause) × ((replace_results k c d).0 ≡ failed x)
            × (standing (replace_results k c d).1 k ≡ standing d k))
  pub replace_others :
      (k j : Str) (c : Dict Int64) (d : Db)
      → str_eq j k ≡ false
      → standing (replace_results k c d).1 j ≡ standing d j
