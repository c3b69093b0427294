-- ===== src/Validation/Text.antt =====
-- The text functions of Go's strings, unicode and utf8 packages that validation.go uses, and
-- `CleanText`.
use live_polling.Prelude.{
  ℕ, ◌+◌, Bool, true, false, ◌&&◌, ◌||◌, List, [], ◌∷◌, ◌++◌, Str, is_empty, ltb, leb, ◌==◌,
  if◌then◌else◌,
}

-- `unicode.IsControl`
abbrev pub is_control : ℕ → Bool
is_control c = ltb c 0x20 || (leb 0x7f c && leb c 0x9f)

-- `unicode.IsSpace`
unfoldable pub is_space : ℕ → Bool
is_space c =
    (leb 0x09 c && leb c 0x0d)
    || c == 0x20
    || c == 0x85
    || c == 0xa0
    || c == 0x1680
    || (leb 0x2000 c && leb c 0x200a)
    || c == 0x2028
    || c == 0x2029
    || c == 0x202f
    || c == 0x205f
    || c == 0x3000

-- The number of bytes of the UTF-8 encoding of a text.
abbrev pub rune_len : ℕ → ℕ
rune_len c = if ltb c 0x80 then 1 else if ltb c 0x800 then 2 else if ltb c 0x10000 then 3 else 4

abbrev pub byte_len : Str → ℕ
byte_len [] = 0
byte_len (c ∷ s) = rune_len c + byte_len s

-- `strings.TrimSpace`
unfoldable pub trim_left : Str → Str
trim_left [] = []
trim_left (c ∷ s) = if is_space c then trim_left s else c ∷ s

unfoldable pub trim_right : Str → Str
trim_right [] = []
trim_right (c ∷ s) = let rest = trim_right s in if is_space c && is_empty rest then [] else c ∷ rest

unfoldable pub trim_space : Str → Str
unfolding trim_left trim_right
trim_space s = trim_right (trim_left s)

-- The rune that `CleanText` puts for a rune, or none where it drops it.
abbrev pub to_blank : ℕ → Bool
to_blank c = c == 0x0a || c == 0x09

abbrev pub is_dropped : ℕ → Bool
is_dropped c = is_control c || c == 0xfeff || c == 0x200b

unfoldable pub strip : Str → Str
strip [] = []
strip (c ∷ s) =
    let rest = strip s in
    if to_blank c then 0x20 ∷ rest else if is_dropped c then rest else c ∷ rest

-- `strings.Fields`, from the word that has been read so far.
unfoldable pub flush : Str → List Str → List Str
flush [] words = words
flush (c ∷ cs) words = (c ∷ cs) ∷ words

unfoldable pub fields_from : Str → Str → List Str
unfolding flush
fields_from word [] = flush word []
fields_from word (c ∷ s) = elim (is_space c) [
  | true ↦ flush word (fields_from [] s)
  | false ↦ fields_from (word ++ c ∷ []) s
]

-- `strings.Join(words, " ")`
unfoldable pub join : List Str → Str
join [] = []
join (w ∷ []) = w
join (w ∷ x ∷ words) = w ++ 0x20 ∷ join (x ∷ words)

-- `CleanText`
unfoldable pub clean_text : Str → Str
unfolding strip fields_from join
clean_text s = join (fields_from [] (strip s))
