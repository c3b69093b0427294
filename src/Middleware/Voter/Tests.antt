-- ===== src/Middleware/Voter/Tests.antt =====
-- The voter cookie at examples.
use live_polling.Prelude.{
  ℕ, ◌≡◌, refl, ◌↔◌, true, Option, none, some, [], ◌∷◌, ◌++◌, Str, codes, str_eq,
}
use live_polling.Apperr.{done}
use live_polling.Http.{Method, Request, Context, blank, next, SameSite}
use live_polling.Middleware.{CookieSettings, set_cookie}
use live_polling.Middleware.Voter.{
  IssuedVoter, sign, issue, read, cut, verified, voter_cookie_name, voter_cookie_max_age,
  voter_identity,
}
use live_polling.Middleware.Voter.Sample.{zeros, moved, signing}
use live_polling.Middleware.Voter.Cookie.{Signed, read_iff, voter_identity_stable}

abbrev secret : Str
secret = codes "s"

abbrev cookies : CookieSettings
cookies = record { secure = true; domain = []; same_site = SameSite.none_mode }

abbrev id : Str
id = moved (7 ∷ zeros 15)

abbrev voter : IssuedVoter
voter = record { id = id; cookie_value = id ++ b'.' ∷ sign signing secret id }

abbrev request : Option Str → Request
request cookie = record {
  method = Method.get;
  origin = [];
  content_type = [];
  request_id = [];
  content_length = none;
  cookie = λ name. cookie;
  client_ip = codes "10.0.0.1";
}

-- An identity with the signature of another one.
forged : read signing secret (some (codes "x" ++ b'.' ∷ sign signing secret id)) ≡ none
unfolding read cut verified str_eq
forged = refl

issue-voter : (issue signing secret 7).0 ≡ done voter
unfolding issue
issue-voter = refl

read_iff_example :
    (read signing secret (some voter.cookie_value) ≡ some id)
    ↔ Signed signing secret voter.cookie_value id
read_iff_example = read_iff signing secret voter.cookie_value id

voter_identity_stable_example :
    (voter_identity {A = ℕ} signing secret cookies (request none) blank 7
      ≡ next
          (record (set_cookie cookies voter_cookie_name voter.cookie_value
            (some voter_cookie_max_age)
            blank) { voter_id = some id })
          (issue signing secret 7).1)
    × ((r : Request) (c : Context) (d : ℕ)
        → r.cookie voter_cookie_name ≡ some voter.cookie_value
        → voter_identity {A = ℕ} signing secret cookies r c d
          ≡ next (record c { voter_id = some id }) d)
unfolding read
voter_identity_stable_example =
    voter_identity_stable {A = ℕ} signing secret cookies (request none) blank 7 voter refl
      issue-voter
