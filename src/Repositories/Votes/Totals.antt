-- ===== src/Repositories/Votes/Totals.antt =====
-- The totals of several polls at once
-- (`TotalsByPolls` in backend/internal/repositories/vote_repository.go).
use live_polling.Prelude.{
  ℕ, ◌<◌, ◌≡◌, refl, sym, ap, subst, ◌∙◌, ◌⊎◌, inl, inr, Bool, true, false, ◌&&◌, ◌||◌, List, [],
  ◌∷◌, arith, Int64, int64, ◌==◌, ==_iff, All, any, count, if◌then◌else◌,
}
use live_polling.Apperr.{ok, ok-injective, Attempt, done, failed}
use live_polling.Models.{ObjectId, Vote}
use live_polling.Mongo.{Collection, IsGrouping}
use live_polling.Repositories.Votes.{
  vote_keyed, Totals, no_totals, put_totals, totalled, totals_by_polls,
}

abbrev in_polls : List ObjectId → Vote → Bool
in_polls is v = any (λ p. p == v.poll_id) is

count_ext :
    (f g : Vote → Bool) (vs : List Vote) → ((v : Vote) → f v ≡ g v) → count f vs ≡ count g vs
count_ext f g [] same = refl
count_ext f g (v ∷ vs) same = ground (arith, same v, count_ext f g vs same)

-- One row more: it is the key's own and has the right total, or it is another's.
carried :
    (k p : ObjectId) (x y n : Int64) (rest : Bool)
    → ((k == p) ≡ true → x ≡ n)
    → (y ≡ n) ⊎ ((k == p || rest) ≡ true)
    → ((if p == k then x else y) ≡ n) ⊎ (rest ≡ true)
carried k p x y n rest right h = ground arith

-- A key that was there with the right total, or that has a row, reads that total if every row of
-- the key has it.
put_totals_lem :
    (rows : List (ObjectId × Int64)) (m : Totals) (p : ObjectId) (n : Int64)
    → All (λ r. (r.0 == p) ≡ true → r.1 ≡ n) rows
    → (m p ≡ n) ⊎ (any (λ r. r.0 == p) rows ≡ true)
    → put_totals rows m p ≡ n
unfolding put_totals
put_totals_lem [] m p n all (inl h) = h
put_totals_lem [] m p n all (inr h) = cc
put_totals_lem (r ∷ rows) m p n all h =
    put_totals_lem rows (λ q. if q == r.0 then r.1 else m q) p n all.1
      (carried r.0 p r.1 (m p) n _ all.0 h)

-- Of the votes in a poll that is asked for, the selection keeps all.
narrowed :
    (is : List ObjectId) (q p : ObjectId)
    → any (λ i. i == p) is ≡ true
    → (b : Bool) → (q == p) ≡ b
    → (any (λ i. i == q) is && q == p) ≡ (q == p)
narrowed is q p asked false is_p = ground (arith, is_p)
narrowed is q p asked true is_p =
    rw (is_p, subst (λ k. any (λ i. i == k) is ≡ true) (sym ((==_iff q p).0 is_p)) asked) refl

-- A poll without a row has no votes.
grouped :
    {n m : ℕ} (has_row : Bool) → (0 < n → has_row ≡ true) → n ≡ m → (0 ≡ int64 m) ⊎ (has_row ≡ true)
grouped true rows same = inr refl
grouped {n} {m} false rows same = ground (arith, rows, same)

-- A grouping of the votes in the given polls gives each of these polls its number of votes.
put_totals-IsGrouping :
    (is : List ObjectId) (vs : List Vote) (rows : List (ObjectId × Int64)) (p : ObjectId)
    → IsGrouping ◌==◌ (in_polls is) (λ v. v.poll_id) vs rows
    → any (λ i. i == p) is ≡ true
    → put_totals rows no_totals p ≡ int64 (count (λ v. v.poll_id == p) vs)
put_totals-IsGrouping is vs rows p g asked =
    put_totals_lem rows no_totals p _ (right rows g.0) (grouped _ (g.1 p) (count_ext _ _ vs total))
  where
    total : (v : Vote) → (in_polls is v && v.poll_id == p) ≡ (v.poll_id == p)
    total v = narrowed is v.poll_id p asked _ refl

    right :
        (xs : List (ObjectId × Int64))
        → All (λ r. r.1 ≡ int64 (count (λ v. in_polls is v && v.poll_id == r.0) vs)) xs
        → All (λ r. (r.0 == p) ≡ true → r.1 ≡ int64 (count (λ v. v.poll_id == p) vs)) xs
    right [] all = tt
    right (x ∷ xs) all = (
      λ h.
          all.0
          ∙ ap int64 (
              ap (λ k. count (λ v. in_polls is v && v.poll_id == k) vs) ((==_iff x.0 p).0 h)
              ∙ count_ext _ _ vs total),
      right xs all.1,
    )

totalled_ok :
    (a : Attempt (List (ObjectId × Int64))) (t : Totals)
    → totalled a ≡ ok t
    → (rows : List (ObjectId × Int64)) × (a ≡ done rows) × (t ≡ put_totals rows no_totals)
unfolding totalled
totalled_ok (done rows) t h = (rows, refl, sym (ok-injective h))
totalled_ok (failed c) t h = cc

module _ (col : Collection Vote vote_keyed) where
  -- Every poll that `TotalsByPolls` is asked for has its number of stored votes, modulo 2^64, as its
  -- total.
  pub totals_tally :
      (is : List ObjectId) (d : col.Db) (t : Totals)
      → (totals_by_polls col is d).0 ≡ ok t
      → (p : ObjectId) → any (λ i. i == p) is ≡ true
      → t p ≡ int64 (count (λ v. v.poll_id == p) (col.docs d))
  unfolding totals_by_polls
  totals_tally [] d t h p asked = cc
  totals_tally (i ∷ is) d t h p asked =
      let (rows, e, same) = totalled_ok _ t h in
      ap (λ m. m p) same
      ∙ put_totals-IsGrouping (i ∷ is) (col.docs d) rows p
          (col.group_done ◌==◌ (in_polls (i ∷ is)) (λ v. v.poll_id) d rows ==_iff e) asked
