-- ===== src/Service/Retry.antt =====
-- Retry limits and delays of service.go. A `time.Duration` is a number of nanoseconds.
use kaftar.Prelude.{
  ℕ, ◌+◌, ◌-◌, ◌*◌, ◌/◌, ◌^◌, Option, none, some, Bool, false, ◌&&◌, not, ℤ, pos, negsuc, ltb, leb,
  if◌then◌else◌, ltb_ℤ,
}
use kaftar.Entity.Time.{Time, second, minute, before}
use kaftar.Entity.Outbox.{Outbox}

-- normalizeMaxRetries
unfoldable pub normalize_max_retries : ℤ → ℤ
normalize_max_retries value = if ltb_ℤ value (pos 0) then negsuc 0 else value

-- outbox.MaxRetries >= 0 && outbox.RetryCount >= outbox.MaxRetries
abbrev pub at_limit : ℤ → ℕ → Bool
at_limit (pos m) retry_count = leb m retry_count
at_limit (negsuc m) retry_count = false

unfoldable pub retry_limit_reached : Outbox → Bool
retry_limit_reached outbox = at_limit outbox.max_retries outbox.retry_count

-- createdAt != nil && !now.Before(createdAt.Add(maxAge)), for a positive age
abbrev pub older_than : Option Time → ℕ → Time → Bool
older_than none age now = false
older_than (some created) age now = not (before now (created + age))

unfoldable pub retry_age_exceeded : Outbox → ℤ → Time → Bool
retry_age_exceeded outbox (negsuc n) now = false
retry_age_exceeded outbox (pos age) now = ltb 0 age && older_than outbox.created_at age now

-- The callers pass a count of at least 1.
unfoldable pub retry_delay : ℕ → ℕ
retry_delay count = if ltb 9 count then 15 * minute else second * 2 ^ count

-- `draw` is what rand.Int64N(duration / 5) returns.
unfoldable pub duration_jitter : ℕ → ℕ → ℕ
duration_jitter duration draw = duration - duration / 10 + draw
