-- ===== src/Mongo.antt =====
-- The MongoDB driver as the repositories use it: a collection is a parameter, its operations with
-- what they are documented to do to the documents that it holds.
pub mod Memory
pub mod Editing
use live_polling.Prelude.{
  ℕ, ◌≤◌, length, ◌<◌, ◌≡◌, ◌≢◌, ◌⊎◌, ◌↔◌, Bool, true, false, ◌&&◌, List, [], ◌∷◌, ◌++◌, Int64,
  int64, All, Member, any, count, reject,
}
use live_polling.Apperr.{Cause, duplicate_key, no_documents, Attempt, done, failed}
use live_polling.Models.{ObjectId}

-- `Keyed` says of a document type how the server stores it under the id that it gives it, and when
-- a document is kept out by a unique index because of one that is there.
pub record Keyed (Doc : Type 0) : Type 0 where
  pub with_id : Doc → ObjectId → Doc
  pub clash : Doc → Doc → Bool

-- The rows of a `$group` with a count: a row's count is right, and a key that occurs has a row.
abbrev pub IsGrouping :
    {Doc K : Type 0}
    → (K → K → Bool)
    → (Doc → Bool)
    → (Doc → K)
    → List Doc
    → List (K × Int64)
    → Type 0
IsGrouping {Doc} {K} eq keeps key ds rows =
    All (λ r. r.1 ≡ int64 (count (λ x. keeps x && eq (key x) r.0) ds)) rows
    × ((k : K) → 0 < count (λ x. keeps x && eq (key x) k) ds → any (λ r. eq r.0 k) rows ≡ true)

-- Documents in the order of a key, the latest first.
abbrev pub Descending : {Doc : Type 0} → (Doc → ℕ) → List Doc → Type 0
Descending key [] = Unit
Descending key (x ∷ xs) = All (λ y. key y ≤ key x) xs × Descending key xs

-- What Find returns with a filter, a descending sort and a limit: stored documents that match, in
-- order, and no more than the limit; one that matches is missing only where the limit is reached. A
-- limit of zero is none.
abbrev pub IsPage : {Doc : Type 0} → (Doc → Bool) → (Doc → ℕ) → Int64 → List Doc → List Doc → Type 0
IsPage {Doc} p key limit ds xs =
    All (λ x. (p x ≡ true) × Member x ds) xs
    × Descending key xs
    × (0 < limit → length xs ≤ limit)
    × ((x : Doc) → p x ≡ true → Member x ds → Member x xs ⊎ (limit ≤ length xs))

pub record Collection (Doc : Type 0) (keyed : Keyed Doc) : Type 1 where
  pub Db : Type 0
  pub docs : Db → List Doc
  pub insert_one : Doc → Db → Attempt ObjectId × Db
  pub find_one : (Doc → Bool) → Db → Attempt Doc × Db
  pub count_documents : (Doc → Bool) → Db → Attempt Int64 × Db
  pub group_count :
      {K : Type 0}
      → (K → K → Bool)
      → (Doc → Bool)
      → (Doc → K)
      → Db
      → Attempt (List (K × Int64)) × Db
  pub delete_many : (Doc → Bool) → Db → Attempt (Unit {0}) × Db
  -- InsertOne adds the document at an id of its own, unless a unique index keeps it out. Where the
  -- call fails otherwise, the document may or may not be there.
  pub insert_done :
      (x : Doc) (d : Db) (i : ObjectId)
      → (insert_one x d).0 ≡ done i
      → (any (keyed.clash x) (docs d) ≡ false)
        × (docs (insert_one x d).1 ≡ docs d ++ keyed.with_id x i ∷ [])
  pub insert_duplicate :
      (x : Doc) (d : Db)
      → (insert_one x d).0 ≡ failed duplicate_key
      → (any (keyed.clash x) (docs d) ≡ true) × (docs (insert_one x d).1 ≡ docs d)
  pub insert_failed :
      (x : Doc) (d : Db) (c : Cause)
      → (insert_one x d).0 ≡ failed c
      → c ≢ duplicate_key
      → (docs (insert_one x d).1 ≡ docs d)
        ⊎ ((i : ObjectId) × (any (keyed.clash x) (docs d) ≡ false)
            × (docs (insert_one x d).1 ≡ docs d ++ keyed.with_id x i ∷ []))
  pub find_done :
      (p : Doc → Bool) (d : Db) (x : Doc)
      → (find_one p d).0 ≡ done x
      → (p x ≡ true) × Member x (docs d)
  pub find_missing :
      (p : Doc → Bool) (d : Db) → (find_one p d).0 ≡ failed no_documents → any p (docs d) ≡ false
  pub find_reads : (p : Doc → Bool) (d : Db) → docs (find_one p d).1 ≡ docs d
  pub count_done :
      (p : Doc → Bool) (d : Db) (n : Int64)
      → (count_documents p d).0 ≡ done n
      → n ≡ int64 (count p (docs d))
  pub count_reads : (p : Doc → Bool) (d : Db) → docs (count_documents p d).1 ≡ docs d
  pub group_done :
      {K : Type 0} (eq : K → K → Bool) (keeps : Doc → Bool) (key : Doc → K) (d : Db)
      (rows : List (K × Int64))
      → ((a b : K) → (eq a b ≡ true) ↔ (a ≡ b))
      → (group_count eq keeps key d).0 ≡ done rows
      → IsGrouping eq keeps key (docs d) rows
  pub group_reads :
      {K : Type 0} (eq : K → K → Bool) (keeps : Doc → Bool) (key : Doc → K) (d : Db)
      → docs (group_count eq keeps key d).1 ≡ docs d
  pub delete_done :
      (p : Doc → Bool) (d : Db)
      → (delete_many p d).0 ≡ done tt
      → docs (delete_many p d).1 ≡ reject p (docs d)
