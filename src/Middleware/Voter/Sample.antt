-- ===== src/Middleware/Voter/Sample.antt =====
-- Libraries for the voter cookie at which its theorems are applied: a signature of one number and a
-- padding, and an encoding that moves every byte past the dot.
use live_polling.Prelude.{
  ℕ, suc, ◌+◌, ◌≡◌, refl, sym, ap, false, [], ◌∷◌, map, any, arith, Str, is_empty, length, ◌==◌,
}
use live_polling.Apperr.{Attempt, done, done-injective}
use live_polling.Middleware.Voter.{Signing}

abbrev pub total : Str → ℕ
total [] = 0
total (c ∷ s) = c + total s

abbrev pub zeros : ℕ → Str
zeros ℕ.zero = []
zeros (suc n) = 0 ∷ zeros n

abbrev pub moved : Str → Str
moved = map (λ c. c + 100)

pub moved-plain : (b : Str) → any (λ c. c == b'.') (moved b) ≡ false
moved-plain [] = refl
moved-plain (c ∷ b) = ground (arith, moved-plain b)

pub moved-empty : (b : Str) → is_empty (moved b) ≡ is_empty b
moved-empty [] = refl
moved-empty (c ∷ b) = refl

pub drawn_length :
    (n : ℕ) (b : Str) → ◌≡◌ {A = Attempt Str} (done (n ∷ zeros 15)) (done b) → length b ≡ 16
drawn_length n b h = ap length (sym (done-injective h))

abbrev pub signing : Signing
signing = record {
  Db = ℕ;
  random = λ n. (done (n ∷ zeros 15), suc n);
  hmac = λ secret id. (total secret + total id) ∷ zeros 31;
  encode = moved;
  random_length = λ n b h. drawn_length n b h;
  hmac_length = λ secret id. refl;
  encode_plain = moved-plain;
  encode_empty = moved-empty;
}
