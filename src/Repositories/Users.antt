-- ===== src/Repositories/Users.antt =====
-- `UserRepository`: backend/internal/repositories/user_repository.go, over the users collection with
-- its unique index on the address from backend/internal/database/indexes.go.
pub mod Filling
use live_polling.Prelude.{Bool, Str, str_eq, ◌==◌}
use live_polling.Apperr.{Cause, Code, Result, ok, err, new, wrap, Attempt, done, failed}
use live_polling.Models.{ObjectId, User}
use live_polling.Mongo.{Keyed, Collection}
use live_polling.Services.Accounts.{with_id}

-- The index `uniq_email`.
abbrev pub uniq_email : User → User → Bool
uniq_email u x = str_eq x.email u.email

abbrev pub user_keyed : Keyed User
user_keyed = record { with_id = with_id; clash = uniq_email }

-- `UserRepository.Create`, on the answer of the driver.
created : User → Attempt ObjectId → Result User
created u (done id) = ok (with_id u id)
created u (failed Cause.duplicate_key) =
    err (new Code.conflict "An account with that e-mail address already exists.")
created u (failed c) = err (wrap Code.internal "Could not create the account." c)

-- `FindByEmail` and `FindByID`, on the answer of the driver.
looked_up : Attempt User → Result User
looked_up (done u) = ok u
looked_up (failed Cause.no_documents) = err (new Code.not_found "Account not found.")
looked_up (failed c) = err (wrap Code.internal "Could not look up the account." c)

module _ (col : Collection User user_keyed) where
  -- `UserRepository.Create`
  unfoldable pub create : User → col.Db → Result User × col.Db
  unfolding created
  create u d = let (id, d') = col.insert_one u d in (created u id, d')

  -- `UserRepository.FindByEmail`
  unfoldable pub find_by_email : Str → col.Db → Result User × col.Db
  unfolding looked_up
  find_by_email email d =
      let (u, d') = col.find_one (λ u. str_eq u.email email) d in (looked_up u, d')

  -- `UserRepository.FindByID`
  unfoldable pub find_by_id : ObjectId → col.Db → Result User × col.Db
  unfolding looked_up
  find_by_id id d = let (u, d') = col.find_one (λ u. u.id == id) d in (looked_up u, d')
