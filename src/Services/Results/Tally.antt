-- ===== src/Services/Results/Tally.antt =====
-- The loops of `Rebuild` and `assemble` compute the tally of the votes
-- (backend/internal/services/result_service.go).
use live_polling.Prelude.{
  ℕ, ◌+◌, ◌^◌, ◌<◌, ◌≡◌, ap, ◌⊎◌, inl, inr, true, List, [], ◌∷◌, ◌++◌, map, append_assoc,
  append-nil, arith, Str, str_eq, str_eq_iff, str_eq_refl, Int64, int64, add64, Dict, insert,
  contains, lookup-insert, contains-insert, All, any, if◌then◌else◌, Bool-cases, Distinct,
  insert-Distinct, if_elim,
}
use live_polling.Models.{PollOption, OptionCount}
use live_polling.Services.Stores.{count_or_zero}
use live_polling.Services.Results.{OptionResult, seed, take_rows, gather}

count_or_zero-insert :
    (k j : Str) (v : Int64) (d : Dict Int64)
    → count_or_zero j (insert k v d) ≡ (if str_eq k j then v else count_or_zero j d)
count_or_zero-insert k j v d = ground (arith, lookup-insert k j v d)

seed-contains :
    (opts : List PollOption) (m : Dict Int64) (o : Str)
    → contains o m ≡ true
    → contains o (seed opts m) ≡ true
unfolding seed
seed-contains [] m o h = h
seed-contains (x ∷ opts) m o h =
    seed-contains opts (insert x.id 0 m) o (ground (arith, contains-insert x.id o 0 m))

seed-contains_own :
    (opts : List PollOption) (m : Dict Int64) → All (λ o. contains o.id (seed opts m) ≡ true) opts
unfolding seed
seed-contains_own [] m = tt
seed-contains_own (x ∷ opts) m = (
  seed-contains opts (insert x.id 0 m) x.id
      (ground (arith, contains-insert x.id x.id 0 m, str_eq_refl x.id)),
  seed-contains_own opts (insert x.id 0 m),
)

seed_zero :
    (opts : List PollOption) (m : Dict Int64) (o : Str)
    → count_or_zero o m ≡ 0
    → count_or_zero o (seed opts m) ≡ 0
unfolding seed
seed_zero [] m o h = h
seed_zero (x ∷ opts) m o h =
    seed_zero opts (insert x.id 0 m) o (ground (arith, count_or_zero-insert x.id o 0 m))

-- A known option ends with its row's count, or with what it had where there is no row for it.
take_rows_count :
    (f : Str → Int64) (rows : List OptionCount) (m : Dict Int64) (o : Str)
    → All (λ r. r.count ≡ f r.option_id) rows
    → contains o m ≡ true
    → (count_or_zero o m ≡ f o) ⊎ (any (λ r. str_eq r.option_id o) rows ≡ true)
    → count_or_zero o (take_rows rows m) ≡ f o
unfolding take_rows
take_rows_count f [] m o right known has = ground arith
take_rows_count f (r ∷ rows) m o right known has = elim (Bool-cases (str_eq r.option_id o)) [
  | inl here ↦
      let e = (str_eq_iff r.option_id o).0 here in
      take_rows_count f rows _ o right.1 (ground (arith, contains-insert r.option_id o r.count m)) (
        inl (
          ground (
            arith,
            count_or_zero-insert r.option_id o r.count m,
            ap f e,
            ap (λ (k : Str). contains k m) e,
          )))
  | inr other ↦
      take_rows_count f rows _ o right.1 (ground (arith, contains-insert r.option_id o r.count m))
        (ground (arith, count_or_zero-insert r.option_id o r.count m))
]

-- Every value of the rebuilt map fits an int64.
abbrev pub Fits : Dict Int64 → Type 0
Fits = All (λ e. e.1 < 2 ^ 64)

insert-Fits : (k : Str) (v : Int64) (d : Dict Int64) → v < 2 ^ 64 → Fits d → Fits (insert k v d)
insert-Fits k v [] h f = (h, tt)
insert-Fits k v ((j, w) ∷ d) h f = ground (arith, insert-Fits k v d h f.1)

pub seed-Fits : (opts : List PollOption) (m : Dict Int64) → Fits m → Fits (seed opts m)
unfolding seed
seed-Fits [] m f = f
seed-Fits (x ∷ opts) m f = seed-Fits opts _ (insert-Fits x.id 0 m (omega arith) f)

pub take_rows-Fits :
    (rows : List OptionCount) (m : Dict Int64)
    → All (λ r. r.count < 2 ^ 64) rows
    → Fits m
    → Fits (take_rows rows m)
unfolding take_rows
take_rows-Fits [] m h f = f
take_rows-Fits (r ∷ rows) m h f =
    take_rows-Fits rows _ h.1 (ground (arith, insert-Fits r.option_id r.count m h.0 f))

pub seed-Distinct : (opts : List PollOption) (m : Dict Int64) → Distinct m → Distinct (seed opts m)
unfolding seed
seed-Distinct [] m f = f
seed-Distinct (x ∷ opts) m f = seed-Distinct opts _ (insert-Distinct x.id 0 m f)

pub take_rows-Distinct :
    (rows : List OptionCount) (m : Dict Int64) → Distinct m → Distinct (take_rows rows m)
unfolding take_rows
take_rows-Distinct [] m f = f
take_rows-Distinct (r ∷ rows) m f = take_rows-Distinct rows _ (
    if_elim Distinct (contains r.option_id m) _ _ (λ _. insert-Distinct r.option_id r.count m f)
      (λ _. f))

-- The map of `Rebuild` gives each option of the poll its count.
pub rebuilt_count :
    (f : Str → ℕ) (opts : List PollOption) (rows : List OptionCount)
    → All (λ r. r.count ≡ int64 (f r.option_id)) rows
    → ((o : Str) → 0 < f o → any (λ r. str_eq r.option_id o) rows ≡ true)
    → All (λ o. count_or_zero o.id (take_rows rows (seed opts [])) ≡ int64 (f o.id)) opts
rebuilt_count f opts rows right full = each opts (seed-contains_own opts [])
  where
    m : Dict Int64
    m = seed opts []

    start :
        (o : Str)
        → (count_or_zero o m ≡ int64 (f o)) ⊎ (any (λ r. str_eq r.option_id o) rows ≡ true)
    start o = grind (arith, seed_zero opts [] o, full o)

    each :
        (os : List PollOption)
        → All (λ o. contains o.id m ≡ true) os
        → All (λ o. count_or_zero o.id (take_rows rows m) ≡ int64 (f o.id)) os
    each [] known = tt
    each (o ∷ os) known =
        (take_rows_count (λ x. int64 (f x)) rows m o.id right known.0 (start o.id), each os known.1)

-- The row of an option with a given count.
abbrev pub row : (Str → ℕ) → PollOption → OptionResult
row f o = record { option_id = o.id; text = o.text; count = int64 (f o.id) }

-- The sum of the counts of the options.
abbrev pub total_of : (Str → ℕ) → List PollOption → ℕ
total_of f [] = 0
total_of f (o ∷ opts) = f o.id + total_of f opts

-- `assemble` renders the options in their order, and its total is their sum as an int64.
pub gather_lem :
    (f : Str → ℕ) (opts : List PollOption) (m : Dict Int64) (rows : List OptionResult) (t : ℕ)
    → All (λ o. count_or_zero o.id m ≡ int64 (f o.id)) opts
    → gather opts m rows (int64 t) ≡ (rows ++ map (row f) opts, int64 (t + total_of f opts))
unfolding gather
gather_lem f [] m rows t h = let e : t + 0 ≡ t = omega arith in rw (append-nil, e)
gather_lem f (o ∷ opts) m rows t h =
    let e : add64 (int64 t) (int64 (f o.id)) ≡ int64 (t + f o.id) = omega arith in
    let e' : t + f o.id + total_of f opts ≡ t + (f o.id + total_of f opts) = omega arith in
    rw (h.0, e, gather_lem f opts m (rows ++ row f o ∷ []) (t + f o.id) h.1, append_assoc, e')
