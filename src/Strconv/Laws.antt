-- ===== src/Strconv/Laws.antt =====
-- A formatted int64 parses to itself.
use live_polling.Prelude.{
  ℕ, zero, suc, ◌+◌, ◌-◌, ◌*◌, ◌/◌, ◌%◌, ◌^◌, ◌<◌, ◌≤◌, ◌≡◌, refl, ap, ◌∙◌, inl, inr, true, false,
  some, [], ◌∷◌, ◌++◌, arith, Str, Int64, ltb, is_empty, Bool-cases, le→leb, ltb→lt,
}
use native.Mathlib.Nat.{pow-suc}
use live_polling.Strconv.{digits, format_int, parse_digits, in_range, parse_int}

parse_digits-append :
    (a b : ℕ) (xs : Str) (c : ℕ)
    → parse_digits a xs ≡ some b
    → c < 10
    → parse_digits a (xs ++ (c + 48) ∷ []) ≡ some (b * 10 + c)
unfolding parse_digits
parse_digits-append a b [] c h lt = ground arith
parse_digits-append a b (x ∷ xs) c h lt =
    ground (arith, parse_digits-append (a * 10 + (x - 48)) b xs c)

parse_digits-digits : (k n : ℕ) → n < 10 ^ k → parse_digits 0 (digits k n) ≡ some n
unfolding digits
parse_digits-digits zero n h = unfold parse_digits in ap some (omega arith)
parse_digits-digits (suc k) n h = elim (Bool-cases (ltb n 10)) [
  | inl small ↦ rw small (unfold parse_digits in ground arith)
  | inr large ↦ rw large (
      parse_digits-append 0 (n / 10) (digits k (n / 10)) (n % 10)
        (parse_digits-digits k (n / 10) (omega (arith, pow-suc 10 k))) (omega arith)
      ∙ ap some (omega arith))
]

digits_nonempty : (k n : ℕ) → is_empty (digits (suc k) n) ≡ false
unfolding digits
digits_nonempty k n = ground (arith, append_nonempty (digits k (n / 10)) (n % 10 + 48))
  where
    append_nonempty : (xs : Str) (c : ℕ) → is_empty (xs ++ c ∷ []) ≡ false
    append_nonempty [] c = refl
    append_nonempty (x ∷ xs) c = refl

-- A text that reads as a number has no sign.
parse_int-digits :
    (s : Str) (n : ℕ)
    → is_empty s ≡ false
    → parse_digits 0 s ≡ some n
    → parse_int s ≡ in_range false (some n)
unfolding parse_int
parse_int-digits [] n e h = cc
parse_int-digits (c ∷ cs) n e h = ground (arith, h)

in_range_small : (n : ℕ) → ltb n (2 ^ 63) ≡ true → in_range false (some n) ≡ some n
unfolding in_range
in_range_small n h = rw h

large_le : (n : ℕ) → ltb n (2 ^ 63) ≡ false → 2 ^ 63 ≤ n
large_le n h = ground arith

in_range_large :
    (n : ℕ) → n < 2 ^ 64 → ltb n (2 ^ 63) ≡ false → in_range true (some (2 ^ 64 - n)) ≡ some n
unfolding in_range
in_range_large n h large =
    let le : 2 ^ 63 ≤ n = large_le n large in
    rw (le→leb (2 ^ 64 - n) (2 ^ 63) (omega arith)) (ap some (omega arith))

minus :
    (s : Str) (n : ℕ)
    → is_empty s ≡ false
    → parse_digits 0 s ≡ some n
    → parse_int (b'-' ∷ s) ≡ in_range true (some n)
unfolding parse_int
minus [] n e h = cc
minus (c ∷ cs) n e h = ap (in_range true) h

-- `ParseInt` reads back what `FormatInt` writes, for every int64, negative ones included.
pub parse_int-format_int : (n : Int64) → n < 2 ^ 64 → parse_int (format_int n) ≡ some n
unfolding format_int
parse_int-format_int n h = elim (Bool-cases (ltb n (2 ^ 63))) [
  | inl small ↦ rw small (
      parse_int-digits (digits 20 n) n (digits_nonempty 19 n)
        (parse_digits-digits 20 n (omega (arith, ltb→lt n (2 ^ 63))))
      ∙ in_range_small n small)
  | inr large ↦ rw large (
      minus (digits 20 (2 ^ 64 - n)) (2 ^ 64 - n) (digits_nonempty 19 (2 ^ 64 - n))
        (parse_digits-digits 20 (2 ^ 64 - n) (omega (arith, large_le n large)))
      ∙ in_range_large n h large)
]
