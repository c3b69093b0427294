-- ===== src/Mongo/Memory.antt =====
-- A collection in memory that keeps the laws of `Collection`. Each operation first takes the next
-- entry of a schedule of faults: `true` makes it fail without an effect.
pub mod Pages
use live_polling.Prelude.{
  suc, ◌<◌, ◌≡◌, refl, ◌↔◌, inl, inr, Bool, true, false, not, ◌&&◌, Option, none, some, List, [],
  ◌∷◌, ◌++◌, arith, Int64, int64, All, any, count, reject, find, find-some, find-none, map, subst,
  ap, ◌∙◌, if◌then◌else◌, Bool-cases,
}
use live_polling.Apperr.{Cause, duplicate_key, no_documents, Attempt, done, failed}
use live_polling.Models.{ObjectId}
use live_polling.Mongo.{Keyed, Collection, IsGrouping}

pub record Memory (Doc : Type 0) : Type 0 where
  pub docs : List Doc
  pub next_id : ObjectId
  pub faults : List Bool

abbrev lost : Cause
lost = Cause.other 0

abbrev pub rest : List Bool → List Bool
rest [] = []
rest (b ∷ bs) = bs

abbrev pub faulty : List Bool → Bool
faulty [] = false
faulty (b ∷ bs) = b

-- The keys that occur among the kept documents, each once.
abbrev pub keys : {Doc K : Type 0} → (K → K → Bool) → (Doc → Bool) → (Doc → K) → List Doc → List K
keys eq keeps key [] = []
keys eq keeps key (x ∷ xs) =
    let r = keys eq keeps key xs in
    if keeps x && not (any (λ j. eq j (key x)) r) then key x ∷ r else r

any-rows :
    {K : Type 0} (eq : K → K → Bool) (f : K → Int64) (ks : List K) (k : K)
    → any (λ (r : K × Int64). eq r.0 k) (map (λ j. (j, f j)) ks) ≡ any (λ j. eq j k) ks
any-rows eq f [] k = refl
any-rows eq f (j ∷ ks) k = ground (arith, any-rows eq f ks k)

grouping_counts :
    {K : Type 0} (f : K → Int64) (ks : List K)
    → All (λ (r : K × Int64). r.1 ≡ f r.0) (map (λ k. (k, f k)) ks)
grouping_counts f [] = tt
grouping_counts f (k ∷ ks) = (refl, grouping_counts f ks)

module _ {Doc : Type 0} where
  -- An operation under the schedule of faults.
  abbrev pub guarded :
      {A : Type 0} → (Memory Doc → Attempt A × Memory Doc) → Memory Doc → Attempt A × Memory Doc
  guarded run m =
      let m' = record m { faults = rest m.faults } in
      if faulty m.faults then (failed lost, m') else run m'

  abbrev pub found : Option Doc → Attempt Doc
  found none = failed no_documents
  found (some x) = done x

  abbrev pub insert_one : Keyed Doc → Doc → Memory Doc → Attempt ObjectId × Memory Doc
  insert_one keyed x = guarded λ m.
      if any (keyed.clash x) m.docs then (failed duplicate_key, m) else (
        done m.next_id,
        record m { docs = m.docs ++ keyed.with_id x m.next_id ∷ []; next_id = suc m.next_id },
      )

  abbrev pub find_one : (Doc → Bool) → Memory Doc → Attempt Doc × Memory Doc
  find_one p = guarded λ m. (found (find p m.docs), m)

  abbrev pub count_documents : (Doc → Bool) → Memory Doc → Attempt Int64 × Memory Doc
  count_documents p = guarded λ m. (done (int64 (count p m.docs)), m)

  abbrev pub group_count :
      {K : Type 0}
      → (K → K → Bool)
      → (Doc → Bool)
      → (Doc → K)
      → Memory Doc
      → Attempt (List (K × Int64)) × Memory Doc
  group_count eq keeps key = guarded λ m. (
    done (
        map (λ k. (k, int64 (count (λ x. keeps x && eq (key x) k) m.docs)))
          (keys eq keeps key m.docs)),
    m,
  )

  abbrev pub delete_many : (Doc → Bool) → Memory Doc → Attempt (Unit {0}) × Memory Doc
  delete_many p = guarded λ m. (done tt, record m { docs = reject p m.docs })

  keys_occur :
      {K : Type 0} (eq : K → K → Bool) (keeps : Doc → Bool) (key : Doc → K) (ds : List Doc) (k : K)
      → ((a b : K) → (eq a b ≡ true) ↔ (a ≡ b))
      → 0 < count (λ x. keeps x && eq (key x) k) ds
      → any (λ j. eq j k) (keys eq keeps key ds) ≡ true
  keys_occur eq keeps key [] k iff pos = absurd (omega arith)
  keys_occur {K} eq keeps key (x ∷ ds) k iff pos = elim (Bool-cases (eq (key x) k)) [
    | inl here ↦ ground (
      arith,
      ap (λ (z : K). any (λ j. eq j z) (keys eq keeps key ds)) ((iff (key x) k).0 here),
      keys_occur eq keeps key ds k iff,
    )
    | inr there ↦ ground (arith, keys_occur eq keeps key ds k iff)
  ]

  pub insert_done :
      (keyed : Keyed Doc) (x : Doc) (m : Memory Doc) (i : ObjectId)
      → (insert_one keyed x m).0 ≡ done i
      → (any (keyed.clash x) m.docs ≡ false)
        × ((insert_one keyed x m).1.docs ≡ m.docs ++ keyed.with_id x i ∷ [])
  insert_done keyed x m i h = ground arith

  pub insert_duplicate :
      (keyed : Keyed Doc) (x : Doc) (m : Memory Doc)
      → (insert_one keyed x m).0 ≡ failed duplicate_key
      → (any (keyed.clash x) m.docs ≡ true) × ((insert_one keyed x m).1.docs ≡ m.docs)
  insert_duplicate keyed x m h = ground arith

  pub insert_failed :
      (keyed : Keyed Doc) (x : Doc) (m : Memory Doc) (c : Cause)
      → (insert_one keyed x m).0 ≡ failed c
      → (insert_one keyed x m).1.docs ≡ m.docs
  insert_failed keyed x m c h = ground arith

  pub find_done :
      (p : Doc → Bool) (m : Memory Doc) (x : Doc)
      → (find_one p m).0 ≡ done x
      → find p m.docs ≡ some x
  find_done p m x h = ground arith

  pub find_missing :
      (p : Doc → Bool) (m : Memory Doc)
      → (find_one p m).0 ≡ failed no_documents
      → find p m.docs ≡ none
  find_missing p m h = ground arith

  pub group_done :
      {K : Type 0} (eq : K → K → Bool) (keeps : Doc → Bool) (key : Doc → K) (m : Memory Doc)
      (rows : List (K × Int64))
      → ((a b : K) → (eq a b ≡ true) ↔ (a ≡ b))
      → (group_count eq keeps key m).0 ≡ done rows
      → IsGrouping eq keeps key m.docs rows
  group_done {K} eq keeps key m rows iff h = subst (IsGrouping eq keeps key m.docs) is (
    grouping_counts f ks,
    (λ k pos. any-rows eq f ks k ∙ keys_occur eq keeps key m.docs k iff pos),
  )
    where
      f : K → Int64
      f k = int64 (count (λ x. keeps x && eq (key x) k) m.docs)

      ks : List K
      ks = keys eq keeps key m.docs

      is : map (λ k. (k, f k)) ks ≡ rows
      is = ground arith

  pub find_reads : (p : Doc → Bool) (m : Memory Doc) → (find_one p m).1.docs ≡ m.docs
  find_reads p m = ground arith

  pub count_done :
      (p : Doc → Bool) (m : Memory Doc) (n : Int64)
      → (count_documents p m).0 ≡ done n
      → n ≡ int64 (count p m.docs)
  count_done p m n h = ground arith

  pub count_reads : (p : Doc → Bool) (m : Memory Doc) → (count_documents p m).1.docs ≡ m.docs
  count_reads p m = ground arith

  pub group_reads :
      {K : Type 0} (eq : K → K → Bool) (keeps : Doc → Bool) (key : Doc → K) (m : Memory Doc)
      → (group_count eq keeps key m).1.docs ≡ m.docs
  group_reads eq keeps key m = ground arith

  pub delete_done :
      (p : Doc → Bool) (m : Memory Doc)
      → (delete_many p m).0 ≡ done tt
      → (delete_many p m).1.docs ≡ reject p m.docs
  delete_done p m h = ground arith

  -- The collection whose store is a `Memory`.
  abbrev pub memory : (keyed : Keyed Doc) → Collection Doc keyed
  memory keyed = record {
    Db = Memory Doc;
    docs = λ m. m.docs;
    insert_one = insert_one keyed;
    find_one = find_one;
    count_documents = count_documents;
    group_count = group_count;
    delete_many = delete_many;
    insert_done = insert_done keyed;
    insert_duplicate = insert_duplicate keyed;
    insert_failed = λ x m c h _. inl (insert_failed keyed x m c h);
    find_done = λ p m x h. find-some p m.docs x (find_done p m x h);
    find_missing = λ p m h. find-none p m.docs (find_missing p m h);
    find_reads = find_reads;
    count_done = count_done;
    count_reads = count_reads;
    group_done = group_done;
    group_reads = group_reads;
    delete_done = delete_done;
  }
