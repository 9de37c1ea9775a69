-- ===== src/Service/Errors.antt =====
-- The errors of service.go, and the labels that the observer gets for them.
use kaftar.Prelude.{String, Option, none, some}
use kaftar.Entity.State.{OutboxState, sent, failed, dead}
use kaftar.Repo.Errors.{RepoError, idempotency_conflict}

pub data ServiceError : Type 0 where
  sender_unavailable invalid_submission shutting_down : ServiceError
  repo : RepoError → ServiceError

pub data Result {ℓ} (A : Type ℓ) : Type ℓ where
  err : ServiceError → Result A
  ok : A → Result A

abbrev pub ◌>>=◌ {ℓ κ} : {X : Type ℓ} {Y : Type κ} → Result X → (X → Result Y) → Result Y
err e >>= next = err e
ok x >>= next = next x

infixl 5 ◌>>=◌
abbrev pub ◌>>◌ {ℓ} : {X : Type ℓ} → Result (Unit {0}) → Result X → Result X
first >> rest = first >>= λ _. rest

infixl 5 ◌>>◌
abbrev pub error_of {ℓ} : {A : Type ℓ} → Result A → Option ServiceError
error_of (ok a) = none
error_of (err e) = some e

-- submissionOutcome
unfoldable pub submission_outcome : Option ServiceError → String
submission_outcome none = "accepted"
submission_outcome (some invalid_submission) = "invalid"
submission_outcome (some sender_unavailable) = "unavailable"
submission_outcome (some shutting_down) = "shutting_down"
submission_outcome (some (repo idempotency_conflict)) = "conflict"
submission_outcome (some (repo e)) = "error"

-- deliveryOutcome
unfoldable pub delivery_outcome : OutboxState → String
delivery_outcome sent = "sent"
delivery_outcome failed = "retry"
delivery_outcome dead = "dead"
delivery_outcome _ = "invalid"
