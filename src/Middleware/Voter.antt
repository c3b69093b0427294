-- ===== src/Middleware/Voter.antt =====
-- The anonymous voter cookie: backend/internal/middleware/voter.go. The value of a cookie passes
-- through gin unchanged, since it has only letters, digits, dashes, underscores and a dot.
pub mod Cookie
pub mod Sample
mod Tests
use live_polling.Prelude.{
  ℕ, ◌≡◌, false, ◌||◌, Option, none, some, [], ◌∷◌, ◌++◌, any, Str, str_eq, is_empty, length, ◌==◌,
  codes, if◌then◌else◌,
}
use live_polling.Apperr.{Attempt, done, failed}
use live_polling.Http.{Context, Answer, Stage, next, Middleware}
use live_polling.Middleware.{CookieSettings, set_cookie}

-- crypto/rand, HMAC-SHA256 and base64.RawURLEncoding.
pub record Signing : Type 1 where
  pub Db : Type 0
  pub random : Db → Attempt Str × Db
  pub hmac : Str → Str → Str
  pub encode : Str → Str
  pub random_length : (d : Db) (b : Str) → (random d).0 ≡ done b → length b ≡ 16
  pub hmac_length : (secret id : Str) → length (hmac secret id) ≡ 32
  pub encode_plain : (b : Str) → any (λ c. c == b'.') (encode b) ≡ false
  pub encode_empty : (b : Str) → is_empty (encode b) ≡ is_empty b

-- `strings.Cut(s, ".")`
unfoldable pub cut : Str → Option (Str × Str)
cut [] = none
cut (c ∷ s) =
    let rest = cut s in
    if c == b'.' then some ([], s) else elim rest [ none ↦ none | some (a, b) ↦ some (c ∷ a, b) ]

-- `issuedVoter`
pub record IssuedVoter : Type 0 where
  pub id : Str
  pub cookie_value : Str

module _ (g : Signing) (secret : Str) where
  -- `sign`
  abbrev pub sign : Str → Str
  sign id = g.encode (g.hmac secret id)

  issued : Attempt Str → Attempt IssuedVoter
  issued (failed c) = failed c
  issued (done buf) =
      let id = g.encode buf in done (record { id = id; cookie_value = id ++ b'.' ∷ sign id })

  -- `issue`
  unfoldable pub issue : g.Db → Attempt IssuedVoter × g.Db
  unfolding issued
  issue d = let (buf, d') = g.random d in (issued buf, d')

  -- `read`, on the two parts of the cookie.
  unfoldable pub verified : Option (Str × Str) → Option Str
  verified none = none
  verified (some (id, signature)) =
      if is_empty id || is_empty signature
      then none
      else if str_eq signature (sign id)
      then some id
      else none

  -- `read`
  unfoldable pub read : Option Str → Option Str
  unfolding verified
  read none = none
  read (some raw) = if is_empty raw then none else verified (cut raw)

abbrev pub voter_cookie_name : Str
voter_cookie_name = codes "lp_voter"

-- `voterCookieMaxAge` in seconds.
abbrev pub voter_cookie_max_age : ℕ
voter_cookie_max_age = 15_552_000

module _ {A : Type 0} (g : Signing) (secret : Str) (cookies : CookieSettings) where
  -- `Middleware` once `issue` has answered: without an identity the request goes on.
  introduced : Attempt IssuedVoter → Context → g.Db → Stage g.Db (Answer A)
  introduced (failed e) c d = next c d
  introduced (done voter) c d =
      next
        (record (set_cookie cookies voter_cookie_name voter.cookie_value (some voter_cookie_max_age)
          c) { voter_id = some voter.id })
        d

  -- `Middleware` once the cookie is read.
  recognised : Option Str → Context → g.Db → Stage g.Db (Answer A)
  unfolding introduced
  recognised (some id) c d = next (record c { voter_id = some id }) d
  recognised none c d = let (voter, d') = issue g secret d in introduced voter c d'

  -- `VoterIdentity.Middleware`
  unfoldable pub voter_identity : Middleware g.Db A
  unfolding recognised
  voter_identity r c d = recognised (read g secret (r.cookie voter_cookie_name)) c d

-- `CurrentVoterID`
abbrev pub current_voter_id : Context → Option Str
current_voter_id c = elim c.voter_id [
  | none ↦ none
  | some id ↦ if is_empty id then none else some id
]
