-- ===== src/Repo/Errors.antt =====
-- server/internal/repository/repository.go: the errors of a repository call. `gorm_not_found` is
-- gorm.ErrRecordNotFound, another value than the repository's own; `database` is any other error
-- that the driver or the UUID generator reports.
use kaftar.Prelude.{String}

pub data RepoError : Type 0 where
  record_not_found idempotency_conflict lease_lost gorm_not_found : RepoError
  database : String → RepoError

pub data Result {ℓ} (A : Type ℓ) : Type ℓ where
  err : RepoError → Result A
  ok : A → Result A

abbrev pub ◌>>=◌ {ℓ κ} : {X : Type ℓ} {Y : Type κ} → Result X → (X → Result Y) → Result Y
err e >>= next = err e
ok x >>= next = next x

infixl 5 ◌>>=◌
