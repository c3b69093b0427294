-- ===== src/Services/Accounts.antt =====
-- What AuthService (backend/internal/services/auth_service.go) takes: the interface UserStore, which
-- the user repository fills, and the libraries bcrypt and jwt, each with what it documents.
use live_polling.Prelude.{
  ℕ, ◌<◌, ◌≤◌, ◌≡◌, ◌⊎◌, Bool, true, false, Option, none, some, List, [], ◌∷◌, ◌++◌, Str, str_eq,
  any, Member, ◌==◌, is_empty,
}
use live_polling.Apperr.{Code, Error, Result, ok, err, Attempt, done}
use live_polling.Models.{ObjectId, Time, User}

-- An account as it is stored under an id, and whether an address has one.
abbrev pub with_id : User → ObjectId → User
with_id u i = record u { id = i }

abbrev pub registered : Str → List User → Bool
registered email = any (λ u. str_eq u.email email)

-- `UserStore`
pub record UserStore : Type 1 where
  pub Db : Type 0
  pub users : Db → List User
  pub create : User → Db → Result User × Db
  pub find_by_email : Str → Db → Result User × Db
  pub find_by_id : ObjectId → Db → Result User × Db
  -- An account that is stored is the first with its address.
  pub create_ok :
      (u u' : User) (d : Db)
      → (create u d).0 ≡ ok u'
      → (registered u.email (users d) ≡ false)
        × ((i : ObjectId) × (u' ≡ with_id u i))
        × (users (create u d).1 ≡ users d ++ u' ∷ [])
  -- A conflict says that the address is taken. After any other error the account may or may not have
  -- been stored, since the answer of the database can be lost.
  pub create_err :
      (u : User) (d : Db) (e : Error)
      → (create u d).0 ≡ err e
      → ((e.code ≡ Code.conflict)
          × (registered u.email (users d) ≡ true)
          × (users (create u d).1 ≡ users d))
        ⊎ ((e.code ≡ Code.internal)
            × ((users (create u d).1 ≡ users d)
                ⊎ ((i : ObjectId) × (registered u.email (users d) ≡ false)
                    × (users (create u d).1 ≡ users d ++ with_id u i ∷ []))))
  pub find_by_email_ok :
      (email : Str) (d : Db) (u : User)
      → (find_by_email email d).0 ≡ ok u
      → (str_eq u.email email ≡ true) × Member u (users d)
  pub find_by_email_err :
      (email : Str) (d : Db) (e : Error)
      → (find_by_email email d).0 ≡ err e
      → ((e.code ≡ Code.not_found) × (registered email (users d) ≡ false))
        ⊎ (e.code ≡ Code.internal)
  pub find_by_email_reads : (email : Str) (d : Db) → users (find_by_email email d).1 ≡ users d
  pub find_by_id_ok :
      (i : ObjectId) (d : Db) (u : User)
      → (find_by_id i d).0 ≡ ok u
      → (u.id ≡ i) × Member u (users d)
  pub find_by_id_err :
      (i : ObjectId) (d : Db) (e : Error)
      → (find_by_id i d).0 ≡ err e
      → ((e.code ≡ Code.not_found) × (any (λ u. u.id == i) (users d) ≡ false))
        ⊎ (e.code ≡ Code.internal)
  pub find_by_id_reads : (i : ObjectId) (d : Db) → users (find_by_id i d).1 ≡ users d

-- bcrypt: GenerateFromPassword draws a salt, and CompareHashAndPassword accepts the password that a
-- hash was made from.
pub record Hasher : Type 1 where
  pub Db : Type 0
  pub generate : ℕ → Str → Db → Attempt Str × Db
  pub compare : Str → Str → Bool
  pub compare-generate :
      (cost : ℕ) (password hash : Str) (d : Db)
      → (generate cost password d).0 ≡ done hash
      → compare hash password ≡ true

-- `jwt.RegisteredClaims`, the fields that the program sets. A date is one of the times that
-- `jwt.NewNumericDate` makes.
pub record Claims : Type 0 where
  pub subject : Str
  pub issuer : Str
  pub issued_at : Option Time
  pub not_before : Option Time
  pub expires_at : Option Time

-- The dates of a token against an instant.
abbrev pub IsBefore : Time → Option Time → Type 0
IsBefore now none = ⊥
IsBefore now (some t) = now < t

abbrev pub HasBegun : Time → Option Time → Type 0
HasBegun now none = Unit
HasBegun now (some t) = t ≤ now

-- jwt: `signed` is NewWithClaims with HS256 and SignedString, and `parse` is ParseWithClaims with
-- that method alone, an issuer and a required expiry, at the instant that it reads.
pub record Tokens : Type 0 where
  pub signed : Str → Claims → Attempt Str
  pub parse : Str → Str → Time → Str → Attempt Claims
  pub signed_nonempty :
      (secret : Str) (c : Claims) (t : Str) → signed secret c ≡ done t → is_empty t ≡ false
  pub parse-signed :
      (secret t : Str) (now : Time) (c : Claims)
      → signed secret c ≡ done t
      → HasBegun now c.not_before
      → IsBefore now c.expires_at
      → parse secret c.issuer now t ≡ done c
  pub parse_done :
      (secret issuer t : Str) (now : Time) (c : Claims)
      → parse secret issuer now t ≡ done c
      → (c.issuer ≡ issuer) × HasBegun now c.not_before × IsBefore now c.expires_at
