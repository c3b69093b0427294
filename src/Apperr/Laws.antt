-- ===== src/Apperr/Laws.antt =====
-- What the response to an error shows of it (backend/internal/response/response.go).
use live_polling.Prelude.{◌≡◌, ◌≢◌, ◌≤◌, ◌<◌, refl, true, false, Option, arith, leb}
use live_polling.Apperr.{
  Code, Code-discrete, Cause, Error, Failure, domain, plain, is, status_for, error_response,
}

pub is_same : (e : Error) (c : Code) → e.code ≡ c → is (domain e) c ≡ true
unfolding is
is_same e c h =
    elim (Code-discrete e.code c)
      as (λ (d : Dec (e.code ≡ c)). (elim d [ yes _ ↦ true | no _ ↦ false ]) ≡ true) [
        | yes _ ↦ refl
        | no n ↦ absurd (n h)
      ]

pub is_other : (e : Error) (c : Code) → e.code ≢ c → is (domain e) c ≡ false
unfolding is
is_other e c h =
    elim (Code-discrete e.code c)
      as (λ (d : Dec (e.code ≡ c)). (elim d [ yes _ ↦ true | no _ ↦ false ]) ≡ false) [
        | yes y ↦ absurd (h y)
        | no _ ↦ refl
      ]

status_for_bounds : (c : Code) → (400 ≤ status_for c) × (status_for c < 600)
unfolding status_for
status_for_bounds Code.validation = omega arith
status_for_bounds _ = omega arith

-- Every failure is answered with a status from 400 to 599, and it is logged exactly when that
-- status is 500 or above.
pub error_response_status :
    (f : Failure)
    → (400 ≤ (error_response f).status)
      × ((error_response f).status < 600)
      × ((error_response f).logged ≡ leb 500 (error_response f).status)
unfolding error_response
error_response_status (domain e) = split e.code
  where
    split :
        (c : Code)
        → (400 ≤ (error_response (domain (record e { code = c }))).status)
          × ((error_response (domain (record e { code = c }))).status < 600)
          × ((error_response (domain (record e { code = c }))).logged
              ≡ leb 500 (error_response (domain (record e { code = c }))).status)
    split Code.validation = ground arith
    split _ = ground arith
error_response_status (plain c) = ground arith

-- Two domain errors that differ only in their cause are answered alike, and any two plain errors
-- are too: the text of the driver's error does not reach the client.
pub error_response_hides_cause :
    (e : Error) (c : Option Cause) (p q : Cause)
    → (error_response (domain (record e { cause = c })) ≡ error_response (domain e))
      × (error_response (plain p) ≡ error_response (plain q))
unfolding error_response
error_response_hides_cause e c p q = ground arith
