-- ===== src/Handlers/Sockets/Origins.antt =====
-- The origins of sockets and of requests (backend/internal/handlers/websocket_handler.go,
-- backend/internal/middleware/cors.go).
use live_polling.Prelude.{
  ◌≡◌, refl, sym, ◌∙◌, ◌↔◌, ◌⊎◌, inl, inr, true, false, Option, none, some, List, [], ◌∷◌, Str,
  str_eq, any, is_empty, Bool-cases, if◌then◌else◌,
}
use text.Mathlib.Text.{◌==◌ as string_eq}
use live_polling.Prelude.{String}
use live_polling.Http.{blank}
use live_polling.Middleware.{allow_list, trim_slashes, cors_headers}
use live_polling.Handlers.Sockets.{check_origin}

-- The value of a header of the answer.
abbrev pub header_of : String → List (String × Str) → Option Str
header_of k [] = none
header_of k (h ∷ hs) = if string_eq h.0 k then some h.1 else header_of k hs

-- A socket may be opened from an origin exactly where CORS would let a page of that origin read an
-- answer, or where the request names no origin.
pub check_origin-cors_headers :
    (allowed_origins : List Str) (header : Str)
    → let origin = trim_slashes header in
      (check_origin allowed_origins header ≡ true) ↔ (
        (is_empty origin ≡ true)
        ⊎ (header_of "Access-Control-Allow-Origin"
              (cors_headers (allow_list allowed_origins) origin blank).headers
            ≡ some origin))
unfolding check_origin cors_headers
check_origin-cors_headers allowed_origins header =
    elim (Bool-cases (is_empty (trim_slashes header))) [
      | inl none_named ↦ ((λ _. inl none_named), (λ _. rw none_named refl))
      | inr named ↦
          elim (Bool-cases (any (str_eq (trim_slashes header)) (allow_list allowed_origins))) [
            | inl listed ↦ ((λ _. inr (rw (named, listed) refl)), (λ _. rw (named, listed) refl))
            | inr other ↦ (
              (λ h. absurd (apart (rw (named, other) at h))),
              (λ h. elim h [
                | inl e ↦ absurd (apart (sym named ∙ e))
                | inr set ↦ absurd (unset (rw (named, other) at set))
              ]),
            )
          ]
    ]
  where
    apart : false ≡ true → ⊥
    apart h = cc

    unset : {o : Str} → none ≡ some o → ⊥
    unset h = cc
