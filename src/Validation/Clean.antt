-- ===== src/Validation/Clean.antt =====
-- What `CleanText` leaves of a text (backend/internal/validation/validation.go).
use live_polling.Prelude.{
  ℕ, ◌≡◌, refl, sym, ap, ◌∙◌, inl, inr, false, List, [], ◌∷◌, ◌++◌, arith, append_assoc, append-nil,
  Str, is_empty, All, All-append, Bool-cases,
}
use live_polling.Validation.Text.{
  is_space, is_dropped, to_blank, strip, flush, fields_from, join, clean_text,
}

-- A rune that `CleanText` lets through as it is.
abbrev pub IsKept : ℕ → Type 0
IsKept c = (to_blank c ≡ false) × (is_dropped c ≡ false)

-- A word: not empty, no white space, and nothing that `CleanText` drops.
abbrev pub IsWord : Str → Type 0
IsWord w = (is_empty w ≡ false) × All (λ c. (is_space c ≡ false) × IsKept c) w

strip-IsKept : (s : Str) → All IsKept (strip s)
unfolding strip
strip-IsKept [] = tt
strip-IsKept (c ∷ s) = ground (arith, strip-IsKept s)

strip_id : (s : Str) → All IsKept s → strip s ≡ s
unfolding strip
strip_id [] h = refl
strip_id (c ∷ s) h = ground (arith, strip_id s h.1)

flush-IsWord :
    (w : Str) (ws : List Str)
    → All (λ c. (is_space c ≡ false) × IsKept c) w
    → All IsWord ws
    → All IsWord (flush w ws)
unfolding flush
flush-IsWord [] ws h hs = hs
flush-IsWord (c ∷ w) ws h hs = ((refl, h), hs)

fields_from-IsWord :
    (w s : Str)
    → All (λ c. (is_space c ≡ false) × IsKept c) w
    → All IsKept s
    → All IsWord (fields_from w s)
unfolding fields_from
fields_from-IsWord w [] h k = flush-IsWord w [] h tt
fields_from-IsWord w (c ∷ s) h k = elim (Bool-cases (is_space c)) [
  | inl blank ↦ rw (blank, fields_from) (flush-IsWord w _ h (fields_from-IsWord [] s tt k.1))
  | inr letter ↦
      rw (letter, fields_from)
        (fields_from-IsWord (w ++ c ∷ []) s (All-append _ w (c ∷ []) h ((letter, k.0), tt)) k.1)
]

-- A word is read as a whole.
fields_from-append :
    (u w s : Str)
    → All (λ c. (is_space c ≡ false) × IsKept c) w
    → fields_from u (w ++ s) ≡ fields_from (u ++ w) s
unfolding fields_from
fields_from-append u [] s h = rw append-nil
fields_from-append u (c ∷ w) s h =
    rw (h.0.0, fields_from)
      (fields_from-append (u ++ c ∷ []) w s h.1
        ∙ ap (λ z. fields_from z s) (append_assoc u (c ∷ []) w))

flush_word : (w : Str) (ws : List Str) → is_empty w ≡ false → flush w ws ≡ w ∷ ws
unfolding flush
flush_word [] ws h = cc
flush_word (c ∷ w) ws h = refl

fields_from-join : (ws : List Str) → All IsWord ws → fields_from [] (join ws) ≡ ws
unfolding fields_from join is_space
fields_from-join [] h = refl
fields_from-join (w ∷ []) h =
    ap (fields_from []) (sym (append-nil w))
    ∙ fields_from-append [] w [] h.0.1
    ∙ flush_word w [] h.0.0
fields_from-join (w ∷ x ∷ ws) h =
    fields_from-append [] w _ h.0.1
    ∙ ap (flush w) (fields_from-join (x ∷ ws) h.1)
    ∙ flush_word w (x ∷ ws) h.0.0

word-IsKept : (w : Str) → All (λ c. (is_space c ≡ false) × IsKept c) w → All IsKept w
word-IsKept [] h = tt
word-IsKept (c ∷ w) h = (h.0.1, word-IsKept w h.1)

join-IsKept : (ws : List Str) → All IsWord ws → All IsKept (join ws)
unfolding join
join-IsKept [] h = tt
join-IsKept (w ∷ []) h = word-IsKept w h.0.1
join-IsKept (w ∷ x ∷ ws) h =
    All-append IsKept w _ (word-IsKept w h.0.1) ((refl, refl), join-IsKept (x ∷ ws) h.1)

-- A cleaned text is words joined by single spaces: none of them is empty, has white space in it or
-- a rune that is dropped.
pub clean_text-words : (s : Str) → (ws : List Str) × All IsWord ws × (clean_text s ≡ join ws)
unfolding clean_text
clean_text-words s =
    (fields_from [] (strip s), fields_from-IsWord [] (strip s) tt (strip-IsKept s), refl)

-- Cleaning a text that has been cleaned changes nothing.
pub clean_text_idem : (s : Str) → clean_text (clean_text s) ≡ clean_text s
unfolding clean_text
clean_text_idem s =
    let ws = fields_from [] (strip s) in
    let h = fields_from-IsWord [] (strip s) tt (strip-IsKept s) in
    rw (strip_id (join ws) (join-IsKept ws h), fields_from-join ws h)
