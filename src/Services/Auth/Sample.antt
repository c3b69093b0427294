-- ===== src/Services/Auth/Sample.antt =====
-- Collaborators of the account service: users in memory, hashes that are the password after a salt, and
-- tokens that spell the secret and the claims out.
use live_polling.Prelude.{
  ℕ, zero, suc, ◌≡◌, refl, sym, ap, subst, ◌∙◌, Bool, true, false, ◌&&◌, Option, none, some, List,
  [], ◌∷◌, ◌++◌, Str, str_eq, str_eq_refl, str_eq_iff, codes, length, take, drop, take-append,
  drop-append, is_empty, ltb, leb, ltb→lt, lt→ltb, leb→le, le→leb, if◌then◌else◌,
}
use live_polling.Apperr.{Cause, Attempt, done, failed, done-injective}
use live_polling.Models.{Time, User}
use live_polling.Mongo.Memory as mongo
use live_polling.Mongo.Memory.{Memory}
use live_polling.Repositories.Users.{user_keyed}
use live_polling.Repositories.Users.Filling.{user_store}
use live_polling.Services.Sample.{ids}
use live_polling.Services.Stores.{Clock}
use live_polling.Services.Accounts.{Hasher, Claims, IsBefore, HasBegun, Tokens}
use live_polling.Services.Auth.{AuthService, World, RegisterInput}

abbrev clock : Clock
clock = record { Db = ℕ; now = λ t. (t, suc t) }

abbrev matches : Str → Str → Bool
matches [] password = false
matches (salt ∷ hash) password = str_eq hash password

abbrev plain : Hasher
plain = record {
  Db = ℕ;
  generate = λ cost password n. (done (n ∷ password), suc n);
  compare = matches;
  compare-generate = λ cost password hash d h. rw (sym (done-injective h)) (str_eq_refl password);
}

abbrev has_date : Option Time → ℕ
has_date none = 0
has_date (some t) = 1

abbrev date : Option Time → ℕ
date none = 0
date (some t) = t

abbrev read_date : ℕ → ℕ → Option Time
read_date zero t = none
read_date (suc n) t = some t

read_date_lem : (o : Option Time) → read_date (has_date o) (date o) ≡ o
read_date_lem none = refl
read_date_lem (some t) = refl

abbrev encoded : Claims → Str
encoded c =
    has_date c.issued_at
    ∷ date c.issued_at
    ∷ has_date c.not_before
    ∷ date c.not_before
    ∷ has_date c.expires_at
    ∷ date c.expires_at
    ∷ length c.subject
    ∷ (c.subject ++ c.issuer)

abbrev decoded : Str → Option Claims
decoded (a ∷ a' ∷ b ∷ b' ∷ e ∷ e' ∷ n ∷ rest) = some (record {
  subject = take n rest;
  issuer = drop n rest;
  issued_at = read_date a a';
  not_before = read_date b b';
  expires_at = read_date e e';
})
decoded _ = none

abbrev begun : Time → Option Time → Bool
begun now none = true
begun now (some t) = leb t now

abbrev lasts : Time → Option Time → Bool
lasts now none = false
lasts now (some t) = ltb now t

abbrev judged : Str → Time → Option Claims → Attempt Claims
judged issuer now none = failed (Cause.other 0)
judged issuer now (some c) =
    if str_eq c.issuer issuer && begun now c.not_before && lasts now c.expires_at
    then done c
    else failed (Cause.other 1)

decoded-encoded : (c : Claims) → decoded (encoded c) ≡ some c
decoded-encoded c =
    rw
      (
        take-append c.subject c.issuer,
        drop-append c.subject c.issuer,
        read_date_lem c.issued_at,
        read_date_lem c.not_before,
        read_date_lem c.expires_at,
      )
      refl

has_begun : (now : Time) (o : Option Time) → begun now o ≡ true → HasBegun now o
has_begun now none h = tt
has_begun now (some t) h = leb→le t now h

begun_lem : (now : Time) (o : Option Time) → HasBegun now o → begun now o ≡ true
begun_lem now none h = refl
begun_lem now (some t) h = le→leb t now h

is_before : (now : Time) (o : Option Time) → lasts now o ≡ true → IsBefore now o
is_before now none h = cc
is_before now (some t) h = ltb→lt now t h

lasts_lem : (now : Time) (o : Option Time) → IsBefore now o → lasts now o ≡ true
lasts_lem now none h = absurd h
lasts_lem now (some t) h = lt→ltb now t h

passed :
    (b : Bool) (x y : Claims)
    → (if b then done x else failed (Cause.other 1)) ≡ done y
    → (b ≡ true) × (x ≡ y)
passed true x y h = (refl, done-injective h)
passed false x y h = cc

three_true : (a b c : Bool) → (a && b && c) ≡ true → (a ≡ true) × (b ≡ true) × (c ≡ true)
three_true true true true h = (refl, refl, refl)
three_true true true false h = cc
three_true true false c h = cc
three_true false b c h = cc

pub judged_done :
    (issuer : Str) (now : Time) (o : Option Claims) (c : Claims)
    → judged issuer now o ≡ done c
    → (c.issuer ≡ issuer) × HasBegun now c.not_before × IsBefore now c.expires_at
judged_done issuer now none c h = cc
judged_done issuer now (some c') c h =
    let (all, is) = passed _ c' c h in
    let (issued, from, until) = three_true _ _ _ all in
    subst
      (λ (c : Claims). (c.issuer ≡ issuer) × HasBegun now c.not_before × IsBefore now c.expires_at)
      is
      (
        (str_eq_iff _ _).0 issued,
        has_begun now c'.not_before from,
        is_before now c'.expires_at until,
      )

pub judged_lem :
    (now : Time) (c : Claims)
    → HasBegun now c.not_before
    → IsBefore now c.expires_at
    → judged c.issuer now (some c) ≡ done c
judged_lem now c b l =
    rw (str_eq_refl c.issuer, begun_lem now c.not_before b, lasts_lem now c.expires_at l) refl

-- A token starts with the length of the secret and the secret.
abbrev unsealed : Str → Str → Option Claims
unsealed secret [] = none
unsealed secret (n ∷ t) = if str_eq (take n t) secret then decoded (drop n t) else none

abbrev pub sealed : Str → Claims → Str
sealed secret c = length secret ∷ (secret ++ encoded c)

pub unsealed-sealed : (secret : Str) (c : Claims) → unsealed secret (sealed secret c) ≡ some c
unsealed-sealed secret c =
    rw (take-append secret (encoded c), drop-append secret (encoded c), str_eq_refl secret)
      (decoded-encoded c)

abbrev tokens : Tokens
tokens = record {
  signed = λ secret c. done (sealed secret c);
  parse = λ secret issuer now t. judged issuer now (unsealed secret t);
  signed_nonempty = λ secret c t h. ap is_empty (sym (done-injective h));
  parse-signed = λ secret t now c h b l.
      subst (λ t. judged c.issuer now (unsealed secret t) ≡ done c) (done-injective h)
        (ap (judged c.issuer now) (unsealed-sealed secret c) ∙ judged_lem now c b l);
  parse_done = λ secret issuer t now c h. judged_done issuer now (unsealed secret t) c h;
}

-- A service whose secret is short and whose sessions last ten seconds.
abbrev pub site : AuthService
site = record {
  users = user_store (mongo.memory user_keyed);
  jwt_secret = codes "secret";
  jwt_expiry = 10_000_000_000;
  clock = clock;
  bcrypt_cost = 4;
  dummy_hash = [];
  hasher = plain;
  tokens = tokens;
  ids = ids;
  lower = λ c. c;
  parse_address = done;
}

-- The state with the given users, at an instant.
abbrev pub at : List User → ℕ → World site
at us t = record {
  users = record { docs = us; next_id = 7; faults = [] };
  random = 3;
  clock = t;
  compared = [];
}

abbrev pub ann : User
ann = record {
  id = 7;
  name = codes "Ann";
  email = codes "ann@example.org";
  password_hash = 3 ∷ codes "pass word";
  created_at = 1_500_000_000;
  updated_at = 1_500_000_000;
}

abbrev pub form : RegisterInput
form = record {
  name = codes " Ann ";
  email = codes "ann@example.org";
  password = codes "pass word";
}
