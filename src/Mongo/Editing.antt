-- ===== src/Mongo/Editing.antt =====
-- The operations of the driver that only the polls collection needs. The index on `_id` is unique in
-- every collection: an edit by an id, which the further filter may rule out, is of the one document
-- that has it.
use live_polling.Prelude.{◌≡◌, ◌⊎◌, ◌&&◌, ◌==◌, Bool, ℕ, List, Int64, map, reject, if◌then◌else◌}
use live_polling.Apperr.{Attempt, done}
use live_polling.Models.{ObjectId}
use live_polling.Mongo.{Keyed, Collection, IsPage}

abbrev pub edited :
    {Doc : Type 0} → (Doc → ObjectId) → ObjectId → (Doc → Bool) → (Doc → Doc) → List Doc → List Doc
edited id_of i p f = map (λ x. if id_of x == i && p x then f x else x)

pub record Editable {Doc : Type 0} {keyed : Keyed Doc} (col : Collection Doc keyed)
    (id_of : Doc → ObjectId) : Type 1 where
  pub find : (Doc → Bool) → (Doc → ℕ) → Int64 → col.Db → Attempt (List Doc) × col.Db
  pub find_one_and_update : ObjectId → (Doc → Bool) → (Doc → Doc) → col.Db → Attempt Doc × col.Db
  pub delete_one : ObjectId → (Doc → Bool) → col.Db → Attempt Int64 × col.Db
  pub find_page :
      (p : Doc → Bool) (key : Doc → ℕ) (limit : Int64) (d : col.Db) (xs : List Doc)
      → (find p key limit d).0 ≡ done xs
      → IsPage p key limit (col.docs d) xs
  -- Where a call fails, the edit may or may not have been made.
  pub update_docs :
      (i : ObjectId) (p : Doc → Bool) (f : Doc → Doc) (d : col.Db)
      → (col.docs (find_one_and_update i p f d).1 ≡ col.docs d)
        ⊎ (col.docs (find_one_and_update i p f d).1 ≡ edited id_of i p f (col.docs d))
  pub delete_docs :
      (i : ObjectId) (p : Doc → Bool) (d : col.Db)
      → (col.docs (delete_one i p d).1 ≡ col.docs d)
        ⊎ (col.docs (delete_one i p d).1 ≡ reject (λ x. id_of x == i && p x) (col.docs d))
