-- ===== src/Mongo/Memory/Pages.antt =====
-- A page of documents in memory, and single edits.
use live_polling.Prelude.{
  ℕ, zero, suc, ◌≤◌, ◌≡◌, sym, subst, ◌⊎◌, inl, inr, Bool, true, ◌&&◌, List, [], ◌∷◌, reject, arith,
  Int64, leb, ◌==◌, All, Member, keep, take, find, length, length-take, All-take, All-keep, if_elim,
  if◌then◌else◌,
}
use live_polling.Apperr.{Attempt, done}
use live_polling.Models.{ObjectId}
use live_polling.Mongo.{Keyed, Descending, IsPage}
use live_polling.Mongo.Editing.{Editable, edited}
use live_polling.Mongo.Memory.{Memory, memory, guarded, found}

module _ {Doc : Type 0} where
  module _ (key : Doc → ℕ) where
    abbrev place : Doc → List Doc → List Doc
    place x [] = x ∷ []
    place x (y ∷ ys) = if leb (key y) (key x) then x ∷ y ∷ ys else y ∷ place x ys

    abbrev pub sorted : List Doc → List Doc
    sorted [] = []
    sorted (x ∷ xs) = place x (sorted xs)

    place-All : (P : Doc → Type 0) (x : Doc) (ys : List Doc) → P x → All P ys → All P (place x ys)
    place-All P x [] hx h = (hx, tt)
    place-All P x (y ∷ ys) hx h =
        if_elim (All P) (leb (key y) (key x)) _ _ (λ _. (hx, h))
          (λ _. (h.0, place-All P x ys hx h.1))

    sorted-All : (P : Doc → Type 0) (xs : List Doc) → All P xs → All P (sorted xs)
    sorted-All P [] h = tt
    sorted-All P (x ∷ xs) h = place-All P x (sorted xs) h.0 (sorted-All P xs h.1)

    below :
        (x y : Doc) (ys : List Doc)
        → key y ≤ key x
        → All (λ z. key z ≤ key y) ys
        → All (λ z. key z ≤ key x) ys
    below x y [] le h = tt
    below x y (z ∷ zs) le h = (omega (arith, h.0), below x y zs le h.1)

    place-Descending : (x : Doc) (ys : List Doc) → Descending key ys → Descending key (place x ys)
    place-Descending x [] h = (tt, tt)
    place-Descending x (y ∷ ys) h =
        if_elim (Descending key) (leb (key y) (key x)) _ _
          (λ le.
            let later : key y ≤ key x = ground (arith, le) in ((later, below x y ys later h.0), h))
          (λ gt. (
            place-All (λ z. key z ≤ key y) x ys (ground (arith, gt)) h.0,
            place-Descending x ys h.1,
          ))

    sorted-Descending : (xs : List Doc) → Descending key (sorted xs)
    sorted-Descending [] = tt
    sorted-Descending (x ∷ xs) = place-Descending x (sorted xs) (sorted-Descending xs)

    place-Member : (z x : Doc) (ys : List Doc) → (z ≡ x) ⊎ Member z ys → Member z (place x ys)
    place-Member z x [] h = h
    place-Member z x (y ∷ ys) h =
        if_elim (Member z) (leb (key y) (key x)) _ _ (λ _. h)
          (λ _. elim h [
            | inl here ↦ inr (place-Member z x ys (inl here))
            | inr (inl first) ↦ inl first
            | inr (inr there) ↦ inr (place-Member z x ys (inr there))
          ])

    sorted-Member : (z : Doc) (xs : List Doc) → Member z xs → Member z (sorted xs)
    sorted-Member z (x ∷ xs) (inl here) = place-Member z x (sorted xs) (inl here)
    sorted-Member z (x ∷ xs) (inr there) =
        place-Member z x (sorted xs) (inr (sorted-Member z xs there))
    sorted-Member z [] h = h

    take-Descending : (n : ℕ) (xs : List Doc) → Descending key xs → Descending key (take n xs)
    take-Descending zero xs h = tt
    take-Descending (suc n) [] h = tt
    take-Descending (suc n) (x ∷ xs) h = (All-take _ n xs h.0, take-Descending n xs h.1)

  take-Member :
      (z : Doc) (n : ℕ) (xs : List Doc)
      → Member z xs
      → Member z (take n xs) ⊎ (n ≤ length (take n xs))
  take-Member z zero xs h = inr (omega arith)
  take-Member z (suc n) [] h = absurd h
  take-Member z (suc n) (x ∷ xs) (inl here) = inl (inl here)
  take-Member z (suc n) (x ∷ xs) (inr there) = elim (take-Member z n xs there) [
    | inl kept ↦ inl (inr kept)
    | inr full ↦ inr (omega (arith, full))
  ]

  keep-Member :
      (p : Doc → Bool) (z : Doc) (xs : List Doc) → p z ≡ true → Member z xs → Member z (keep p xs)
  keep-Member p z (x ∷ xs) h (inl here) =
      subst (λ b. Member z (if b then x ∷ keep p xs else keep p xs))
        (sym (subst (λ y. p y ≡ true) here h)) (inl here)
  keep-Member p z (x ∷ xs) h (inr there) =
      if_elim (Member z) (p x) _ _ (λ _. inr (keep-Member p z xs h there))
        (λ _. keep-Member p z xs h there)
  keep-Member p z [] h there = there

  -- A limit of zero is none.
  abbrev pub page : (Doc → Bool) → (Doc → ℕ) → Int64 → List Doc → List Doc
  page p key zero ds = sorted key (keep p ds)
  page p key (suc n) ds = take (suc n) (sorted key (keep p ds))

  pub page-IsPage :
      (p : Doc → Bool) (key : Doc → ℕ) (limit : Int64) (ds : List Doc)
      → IsPage p key limit ds (page p key limit ds)
  page-IsPage p key zero ds = (
    sorted-All key _ (keep p ds) (All-keep _ p ds (λ x m h. (h, m))),
    sorted-Descending key (keep p ds),
    (λ pos. absurd (omega arith)),
    (λ x h m. inr (omega arith)),
  )
  page-IsPage p key (suc n) ds = (
    All-take _ (suc n) (sorted key (keep p ds))
        (sorted-All key _ (keep p ds) (All-keep _ p ds (λ x m h. (h, m)))),
    take-Descending key (suc n) (sorted key (keep p ds)) (sorted-Descending key (keep p ds)),
    (λ _. length-take (suc n) (sorted key (keep p ds))),
    (λ x h m. take-Member x (suc n) _ (sorted-Member key x (keep p ds) (keep-Member p x ds h m))),
  )

  module _ (keyed : Keyed Doc) (id_of : Doc → ObjectId) where
    abbrev at : ObjectId → (Doc → Bool) → Doc → Bool
    at i p x = id_of x == i && p x

    abbrev find_page :
        (Doc → Bool) → (Doc → ℕ) → Int64 → Memory Doc → Attempt (List Doc) × Memory Doc
    find_page p key limit = guarded λ m. (done (page p key limit m.docs), m)

    abbrev update_one :
        ObjectId → (Doc → Bool) → (Doc → Doc) → Memory Doc → Attempt Doc × Memory Doc
    update_one i p f = guarded λ m. (
      found (find (at i p) (edited id_of i p f m.docs)),
      record m { docs = edited id_of i p f m.docs },
    )

    abbrev delete_one : ObjectId → (Doc → Bool) → Memory Doc → Attempt Int64 × Memory Doc
    delete_one i p =
        guarded
          λ m. (done (length (keep (at i p) m.docs)), record m { docs = reject (at i p) m.docs })

    pub find_page_done :
        (p : Doc → Bool) (key : Doc → ℕ) (limit : Int64) (m : Memory Doc) (xs : List Doc)
        → (find_page p key limit m).0 ≡ done xs
        → IsPage p key limit m.docs xs
    find_page_done p key limit m xs h =
        let is : page p key limit m.docs ≡ xs = ground arith in
        subst (IsPage p key limit m.docs) is (page-IsPage p key limit m.docs)

    pub update_one_docs :
        (i : ObjectId) (p : Doc → Bool) (f : Doc → Doc) (m : Memory Doc)
        → ((update_one i p f m).1.docs ≡ m.docs)
          ⊎ ((update_one i p f m).1.docs ≡ edited id_of i p f m.docs)
    update_one_docs i p f m = ground arith

    pub delete_one_docs :
        (i : ObjectId) (p : Doc → Bool) (m : Memory Doc)
        → ((delete_one i p m).1.docs ≡ m.docs)
          ⊎ ((delete_one i p m).1.docs ≡ reject (at i p) m.docs)
    delete_one_docs i p m = ground arith

    abbrev pub editable : Editable (memory keyed) id_of
    editable = record {
      find = find_page;
      find_one_and_update = update_one;
      delete_one = delete_one;
      find_page = find_page_done;
      update_docs = update_one_docs;
      delete_docs = delete_one_docs;
    }
