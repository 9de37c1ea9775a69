-- ===== src/Provider/Client.antt =====
-- server/internal/service/providerhttp/client.go. What the client and the reader answer is given.
use kaftar.Prelude.{
  ℕ, String, Option, none, some, Bool, true, false, if◌then◌else◌, ◌&&◌, ◌||◌, not, ltb, ◌==◌, ◌^◌,
  length,
}
use Prim.Native.String.{◌++◌ as append}
use kaftar.Entity.Message.{Bytes}

-- An error of a provider call: the context's two errors, a network error whose Timeout is true, a
-- Failure with its text, ErrBodyLimitExceeded, any other error with its text, and a wrapped error,
-- as fmt.Errorf makes it with %w (and the HTTP client with *url.Error).
pub data ProviderError : Type 0 where
  canceled deadline_exceeded timed_out body_limit : ProviderError
  failure unclassified : String → ProviderError
  wrapped : String → ProviderError → ProviderError

-- errors.Is(err, context.Canceled)
unfoldable pub is_canceled : ProviderError → Bool
is_canceled canceled = true
is_canceled (wrapped text e) = is_canceled e
is_canceled _ = false

-- errors.Is(err, context.DeadlineExceeded), or a net.Error whose Timeout is true.
unfoldable pub is_timeout : ProviderError → Bool
is_timeout deadline_exceeded = true
is_timeout timed_out = true
is_timeout (wrapped text e) = is_timeout e
is_timeout _ = false

-- errors.As(err, &safe)
unfoldable pub as_failure : ProviderError → Option String
as_failure (failure text) = some text
as_failure (wrapped text e) = as_failure e
as_failure _ = none

-- IsBodyLimitExceeded of the http package.
unfoldable pub is_body_limit : ProviderError → Bool
is_body_limit body_limit = true
is_body_limit (wrapped text e) = is_body_limit e
is_body_limit _ = false

abbrev pub failure_or : String → Option String → ProviderError
failure_or provider (some text) = failure text
failure_or provider none = failure (append provider ": request failed")

unfoldable pub classify : String → ProviderError → ProviderError
unfolding is_canceled is_timeout as_failure
classify provider e =
    if is_canceled e
    then wrapped provider canceled
    else if is_timeout e
    then wrapped provider deadline_exceeded
    else failure_or provider (as_failure e)

-- SafeError: none is nil.
unfoldable pub safe_error : String → Option ProviderError → Option ProviderError
unfolding classify
safe_error provider none = none
safe_error provider (some e) = some (classify provider e)

pub data Result {ℓ} (A : Type ℓ) : Type ℓ where
  err : ProviderError → Result A
  ok : A → Result A

abbrev pub ◌>>=◌ {ℓ κ} : {X : Type ℓ} {Y : Type κ} → Result X → (X → Result Y) → Result Y
err e >>= next = err e
ok x >>= next = next x

infixl 5 ◌>>=◌
abbrev pub ◌>>◌ {ℓ} : {X : Type ℓ} → Result (Unit {0}) → Result X → Result X
first >> rest = first >>= λ _. rest

infixl 5 ◌>>◌
-- The error of a call whose value is not used.
abbrev pub error_of {ℓ} : {A : Type ℓ} → Result A → Option ProviderError
error_of (ok a) = none
error_of (err e) = some e

-- The source's `if !test { return e }`.
abbrev pub guard : Bool → ProviderError → Result (Unit {0})
guard false otherwise = err otherwise
guard true otherwise = ok tt

-- http.Response. Reading its body fails within the bytes that are read, or it is these bytes.
pub record Response : Type 0 where
  pub status_code : ℕ
  pub body : Result Bytes

abbrev pub response_limit : ℕ
response_limit = 2 ^ 20

-- Failures carry a number, which strconv and fmt print.
abbrev pub successful : ℕ → ℕ → Bool
successful expected code = not (ltb code 200) && ltb code 300 && (expected == 0 || code == expected)

unfoldable pub safely {ℓ} : {A : Type ℓ} → String → Result A → Result A
unfolding classify
safely provider (ok a) = ok a
safely provider (err e) = err (classify provider e)

-- Response: `answer` is what client.Do returns, `print` what fmt makes of the status. The reader
-- stops one byte after the limit, so a body is too large when it is longer than the limit.
unfoldable pub response : (ℕ → String) → String → ℕ → Result Response → Result Bytes
unfolding safely
response print provider expected answer = do
  r ← safely provider answer
  guard (successful expected r.status_code)
      (failure (append provider (append ": HTTP " (print r.status_code))))
  body ← safely provider r.body
  guard (not (ltb response_limit (length body))) (failure (append provider ": response too large"))
  ok body
