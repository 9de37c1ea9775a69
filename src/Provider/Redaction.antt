-- ===== src/Provider/Redaction.antt =====
-- No text of an unclassified error survives SafeError.
use kaftar.Prelude.{String, ◌≡◌, refl, ap, Option, none, some, Bool-cases, Option-cases, inl, inr}
use kaftar.Provider.Client.{
  ProviderError, canceled, deadline_exceeded, timed_out, body_limit, failure, unclassified, wrapped,
  is_canceled, is_timeout, as_failure, classify, safe_error,
}

-- The same error without the texts that came from outside.
unfoldable pub redact : ProviderError → ProviderError
redact (unclassified text) = unclassified ""
redact (wrapped text e) = wrapped "" (redact e)
redact e = e

is_canceled-redact : (e : ProviderError) → is_canceled (redact e) ≡ is_canceled e
unfolding redact is_canceled
is_canceled-redact (wrapped text e) = is_canceled-redact e
is_canceled-redact canceled = refl
is_canceled-redact deadline_exceeded = refl
is_canceled-redact timed_out = refl
is_canceled-redact body_limit = refl
is_canceled-redact (failure text) = refl
is_canceled-redact (unclassified text) = refl

is_timeout-redact : (e : ProviderError) → is_timeout (redact e) ≡ is_timeout e
unfolding redact is_timeout
is_timeout-redact (wrapped text e) = is_timeout-redact e
is_timeout-redact canceled = refl
is_timeout-redact deadline_exceeded = refl
is_timeout-redact timed_out = refl
is_timeout-redact body_limit = refl
is_timeout-redact (failure text) = refl
is_timeout-redact (unclassified text) = refl

as_failure-redact : (e : ProviderError) → as_failure (redact e) ≡ as_failure e
unfolding redact as_failure
as_failure-redact (wrapped text e) = as_failure-redact e
as_failure-redact canceled = refl
as_failure-redact deadline_exceeded = refl
as_failure-redact timed_out = refl
as_failure-redact body_limit = refl
as_failure-redact (failure text) = refl
as_failure-redact (unclassified text) = refl

-- The error that SafeError gives for an error is the one it gives when the texts of unclassified
-- errors and of wrappings are taken out of it: no such text is passed on.
pub safe_error-redact :
    (provider : String) (e : ProviderError)
    → safe_error provider (some (redact e)) ≡ safe_error provider (some e)
unfolding safe_error classify
safe_error-redact provider e = cc (is_canceled-redact e, is_timeout-redact e, as_failure-redact e)

classify-classify :
    (provider : String) (e : ProviderError)
    → classify provider (classify provider e) ≡ classify provider e
unfolding classify is_canceled is_timeout as_failure
classify-classify provider e = elim (Bool-cases (is_canceled e)) [
  | inl c ↦ rw (c)
  | inr c ↦ elim (Bool-cases (is_timeout e)) [
    | inl t ↦ rw (c, t)
    | inr t ↦ elim (Option-cases (as_failure e)) [
      | inl n ↦ rw (c, t, n)
      | inr (text, n) ↦ rw (c, t, n)
    ]
  ]
]

-- Applying SafeError again, for the same provider, changes nothing.
pub safe_error_twice :
    (provider : String) (e : Option ProviderError)
    → safe_error provider (safe_error provider e) ≡ safe_error provider e
unfolding safe_error
safe_error_twice provider none = refl
safe_error_twice provider (some e) = ap some (classify-classify provider e)
