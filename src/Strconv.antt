-- ===== src/Strconv.antt =====
-- What the program uses of Go's strconv: `FormatInt` and `ParseInt` in base ten at 64 bits. An int64
-- is its bit pattern.
pub mod Laws
mod Tests
use live_polling.Prelude.{
  ℕ, zero, suc, ◌+◌, ◌-◌, ◌*◌, ◌/◌, ◌%◌, ◌^◌, Bool, true, false, ◌&&◌, Option, none, some, [], ◌∷◌,
  ◌++◌, Str, Int64, ltb, leb, ◌==◌, if◌then◌else◌,
}

-- The decimal digits of a number, of which there are at most as many as the fuel.
unfoldable pub digits : ℕ → ℕ → Str
digits zero n = []
digits (suc k) n =
    let rest = digits k (n / 10) in if ltb n 10 then (n + 48) ∷ [] else rest ++ (n % 10 + 48) ∷ []

-- `strconv.FormatInt(n, 10)`: twenty digits hold every number below 2 ^ 64.
unfoldable pub format_int : Int64 → Str
format_int n = if ltb n (2 ^ 63) then digits 20 n else b'-' ∷ digits 20 (2 ^ 64 - n)

abbrev pub is_digit : ℕ → Bool
is_digit c = leb b'0' c && leb c b'9'

-- The digits of `ParseInt`, read on from a number.
unfoldable pub parse_digits : ℕ → Str → Option ℕ
parse_digits acc [] = some acc
parse_digits acc (c ∷ cs) =
    let rest = parse_digits (acc * 10 + (c - 48)) cs in if is_digit c then rest else none

-- The range check: a magnitude and its sign as an int64.
unfoldable pub in_range : Bool → Option ℕ → Option Int64
in_range negative none = none
in_range true (some n) = if leb n (2 ^ 63) then some ((2 ^ 64 - n) % 2 ^ 64) else none
in_range false (some n) = if ltb n (2 ^ 63) then some n else none

unfoldable pub parse_signed : Bool → Str → Option Int64
unfolding parse_digits in_range
parse_signed negative [] = none
parse_signed negative (c ∷ cs) = in_range negative (parse_digits 0 (c ∷ cs))

-- `strconv.ParseInt(s, 10, 64)`, whose errors are one to the caller.
unfoldable pub parse_int : Str → Option Int64
unfolding parse_signed
parse_int [] = none
parse_int (c ∷ cs) =
    if c == b'-'
    then parse_signed true cs
    else if c == b'+'
    then parse_signed false cs
    else parse_signed false (c ∷ cs)
