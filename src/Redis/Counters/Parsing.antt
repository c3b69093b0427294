-- ===== src/Redis/Counters/Parsing.antt =====
-- The hash of a poll as Go reads it: what one increment and one rewrite of the hash do to the
-- counters (backend/internal/redis/counters.go).
use live_polling.Prelude.{
  ◌^◌, ◌<◌, ◌≡◌, refl, ◌∙◌, inl, inr, true, false, Option, none, some, [], ◌∷◌, arith, Str, str_eq,
  str_eq_iff, Int64, Dict, Distinct, lookup, insert, contains, lookup-insert, All, if◌then◌else◌,
  Bool-cases, Option-cases,
}
use live_polling.Strconv.{parse_int}
use live_polling.Strconv.Laws.{parse_int-format_int}
use live_polling.Services.Stores.{count_or_zero}
use live_polling.Redis.Server.{StartsAt}
use live_polling.Redis.Counters.{add_count, parse_counts, field_values}

abbrev parsed : Option Str → Option Int64
parsed none = none
parsed (some v) = parse_int v

-- A counter is the number that its field spells.
pub lookup-parse_counts :
    (h : Dict Str) (d : Dict Int64) (x : Str)
    → parse_counts h ≡ some d
    → lookup x d ≡ parsed (lookup x h)
unfolding parse_counts
lookup-parse_counts [] d x e = ground arith
lookup-parse_counts ((k, v) ∷ h) d x e = elim (Option-cases (parse_int v)) [
  | inl bad ↦ cc bad
  | inr (n, good) ↦ elim (Option-cases (parse_counts h)) [
    | inl cold ↦ ground (arith, cold, good)
    | inr (d', warm) ↦
        ground (arith, warm, good, lookup-parse_counts h d' x warm, lookup-insert k x n d')
  ]
]

-- Counters in which one option has got a new value, or cold ones that stayed cold.
abbrev pub Written : Str → Int64 → Option (Dict Int64) → Option (Dict Int64) → Type 0
Written o n none none = Unit
Written o n none (some d') = ⊥
Written o n (some d) none = ⊥
Written o n (some d) (some d') =
    (x : Str) → lookup x d' ≡ (if str_eq o x then some n else lookup x d)

add_count-Written :
    (o k : Str) (n a : Int64) (b c : Option (Dict Int64))
    → str_eq k o ≡ false
    → Written o n b c
    → Written o n (add_count k (some a) b) (add_count k (some a) c)
unfolding add_count
add_count-Written o k n a none none ne w = tt
add_count-Written o k n a none (some d') ne w = w
add_count-Written o k n a (some d) none ne w = w
add_count-Written o k n a (some d) (some d') ne w = λ x. ground (
  arith,
  w x,
  lookup-insert k x a d,
  lookup-insert k x a d',
  str_eq_iff k o,
  str_eq_iff k x,
  str_eq_iff o x,
)

overwrite-Written :
    (o k : Str) (n a : Int64) (b : Option (Dict Int64))
    → str_eq k o ≡ true
    → Written o n (add_count k (some a) b) (add_count o (some n) b)
unfolding add_count
overwrite-Written o k n a none e = tt
overwrite-Written o k n a (some d) e = λ x. ground (
  arith,
  lookup-insert k x a d,
  lookup-insert o x n d,
  str_eq_iff k o,
  str_eq_iff k x,
  str_eq_iff o x,
)

-- Writing a number into a field that held one, or was absent, writes it into the counters.
pub insert-Written :
    (o v : Str) (n m : Int64) (h : Dict Str)
    → parse_int v ≡ some n
    → StartsAt (lookup o h) m
    → Written o n (parse_counts h) (parse_counts (insert o v h))
unfolding parse_counts
insert-Written o v n m [] good start = rw good (unfold add_count in λ x. refl)
insert-Written o v n m ((k, u) ∷ h) good start = elim (Bool-cases (str_eq k o)) [
  | inl same ↦
      let held : parse_int u ≡ some m = rw same at start in
      rw (same, held, good) (overwrite-Written o k n m (parse_counts h) same)
  | inr other ↦
      rw other (kept (parse_int u) (insert-Written o v n m h good (rw other at start)) other)
]
  where
    kept :
        (a : Option Int64)
        → Written o n (parse_counts h) (parse_counts (insert o v h))
        → str_eq k o ≡ false
        → Written o n (add_count k a (parse_counts h)) (add_count k a (parse_counts (insert o v h)))
    kept none w ne = unfold add_count in tt
    kept (some a) w ne = add_count-Written o k n a _ _ ne w

-- The value that an increment starts from is the counter that a reader sees.
pub StartsAt-count :
    (o : Str) (m : Int64) (h : Dict Str) (d : Dict Int64)
    → parse_counts h ≡ some d
    → StartsAt (lookup o h) m
    → count_or_zero o d ≡ m
StartsAt-count o m h d e start = elim (Option-cases (lookup o h)) [
  | inl absent ↦
      let zero : m ≡ 0 = rw absent at start in ground (arith, absent, lookup-parse_counts h d o e)
  | inr (v, held) ↦
      let good : parse_int v ≡ some m = rw held at start in
      ground (arith, held, lookup-parse_counts h d o e)
]

-- The fields that a rewrite writes are read as the counters that it was given.
pub field_values_lem :
    (c : Dict Int64)
    → All (λ e. e.1 < 2 ^ 64) c
    → (d : Dict Int64) × (parse_counts (field_values c) ≡ some d)
      × ((x : Str) → lookup x d ≡ lookup x c)
unfolding parse_counts
field_values_lem [] fits = ([], refl, λ x. refl)
field_values_lem ((k, n) ∷ c) fits =
    let (d, e, same) = field_values_lem c fits.1 in
    (
      insert k n d,
      rw (parse_int-format_int n fits.0, e, add_count),
      λ x. lookup-insert k x n d ∙ rw (same x),
    )

contains-field_values : (k : Str) (c : Dict Int64) → contains k (field_values c) ≡ contains k c
contains-field_values k [] = refl
contains-field_values k ((j, n) ∷ c) = ground (arith, contains-field_values k c)

pub field_values-Distinct : (c : Dict Int64) → Distinct c → Distinct (field_values c)
field_values-Distinct [] h = tt
field_values-Distinct ((k, n) ∷ c) h =
    (contains-field_values k c ∙ h.0, field_values-Distinct c h.1)
