-- ===== src/Api/Reply.antt =====
-- server/internal/api/http/handler/common.go: replies, error codes and query parameters.
use kaftar.Prelude.{ℕ, String, Option, none, some, str_eq, if◌then◌else◌, ℤ, pos}
use kaftar.Entity.Time.{Time}
use kaftar.Repo.Errors.{RepoError, record_not_found, idempotency_conflict}
use kaftar.Service.Errors.{
  ServiceError, sender_unavailable, invalid_submission, shutting_down, repo,
}
use kaftar.Health.Report.{Report, ready}
use kaftar.Api.Dto.{MessageStatus}

-- A reply: an error with its code and message, the ID of a submission, a message's status, or a
-- health report. Details of errors are left out.
pub data Reply : Type 0 where
  error : ℕ → String → Reply
  accepted : String → Reply
  found : MessageStatus → Reply
  health : ℕ → Report → Reply

-- The HTTP status code.
unfoldable pub code : Reply → ℕ
code (error status message) = status
code (accepted id) = 200
code (found status) = 200
code (health status report) = status

-- liveness and readiness of the handler.
unfoldable pub health_reply : Report → Reply
unfolding ready
health_reply report = health (if ready report then 200 else 503) report

abbrev pub status_code : RepoError → ℕ
status_code record_not_found = 404
status_code _ = 500

-- sendStatusError
unfoldable pub status_error : String → RepoError → Reply
status_error message e = error (status_code e) message

-- sendSubmissionError
unfoldable pub submission_error : ServiceError → Reply
submission_error (repo idempotency_conflict) =
    error 409 "Idempotency key conflicts with an existing submission"
submission_error sender_unavailable = error 503 "Sender unavailable"
submission_error shutting_down = error 503 "Sender unavailable"
submission_error invalid_submission = error 400 "Invalid submission"
submission_error (repo e) = error 500 "Submission could not be saved"

-- strconv.Atoi and time.Parse with RFC3339.
pub record Parsers : Type 0 where
  pub atoi : String → Option ℤ
  pub rfc3339 : String → Option Time

-- What a handler reads of the request: its body as the binder gives it (none is an error), query
-- parameters, and the header Idempotency-Key. A missing one is the empty text.
pub record Request (D : Type 0) : Type 0 where
  pub bound : Option D
  pub query : String → String
  pub idempotency_key : String

-- A handler goes on with a value, or has replied.
pub data Step {ℓ} (A : Type ℓ) : Type ℓ where
  go : A → Step A
  stop : Reply → Step A

infixl 5 ◌>>=◌
abbrev pub ◌>>=◌ {ℓ κ} : {A : Type ℓ} {B : Type κ} → Step A → (A → Step B) → Step B
go a >>= f = f a
stop r >>= f = stop r

abbrev pub or_bad_request {ℓ} : {A : Type ℓ} → String → Option A → Step A
or_bad_request message none = stop (error 400 message)
or_bad_request message (some a) = go a

abbrev pub some_of {ℓ} : {A : Type ℓ} → Option A → Option (Option A)
some_of none = none
some_of (some a) = some (some a)

module _ (parsers : Parsers) where
  -- parseQueryParamInt
  unfoldable pub parse_query_param_int : String → Option ℤ
  parse_query_param_int value = if str_eq value "" then some (pos 0) else parsers.atoi value

  -- parseQueryParamTime: a missing parameter is a nil time.
  unfoldable pub parse_query_param_time : String → Option (Option Time)
  parse_query_param_time value =
      if str_eq value "" then some none else some_of (parsers.rfc3339 value)
