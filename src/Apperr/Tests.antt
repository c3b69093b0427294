-- ===== src/Apperr/Tests.antt =====
-- Runs of the error vocabulary, and its theorems at examples.
use live_polling.Prelude.{◌≡◌, refl, true, some, ◌≤◌, ◌<◌, leb}
use live_polling.Apperr.{Code, Cause, new, wrap, domain, plain, is, error_response}
use live_polling.Apperr.Laws.{error_response_status, error_response_hides_cause}

is_closed : is (domain (new Code.poll_closed "closed")) Code.poll_closed ≡ true
unfolding is
is_closed = refl

error_response_status_example :
    (400 ≤ (error_response (plain (Cause.other 3))).status)
    × ((error_response (plain (Cause.other 3))).status < 600)
    × ((error_response (plain (Cause.other 3))).logged
        ≡ leb 500 (error_response (plain (Cause.other 3))).status)
error_response_status_example = error_response_status (plain (Cause.other 3))

error_response_hides_cause_example :
    (error_response (domain (wrap Code.internal "m" (Cause.other 2)))
      ≡ error_response (domain (new Code.internal "m")))
    × (error_response (plain (Cause.other 1)) ≡ error_response (plain Cause.no_documents))
error_response_hides_cause_example =
    error_response_hides_cause (new Code.internal "m") (some (Cause.other 2)) (Cause.other 1)
      Cause.no_documents
