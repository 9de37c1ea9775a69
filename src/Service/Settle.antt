-- ===== src/Service/Settle.antt =====
-- The part of handleDelivery that turns the provider's answer into the outbox to save.
use kaftar.Prelude.{ℕ, ◌+◌, String, some, ◌||◌, if◌then◌else◌}
use kaftar.Entity.Time.{Time, reached}
use kaftar.Entity.State.{sent, failed, dead}
use kaftar.Entity.Outbox.{Outbox}
use kaftar.Service.Retry.{retry_limit_reached, retry_delay, duration_jitter}

-- What the attempt came to: the provider took the message, it refused with an error text, or the
-- stored payload was no message.
pub data Attempt : Type 0 where
  delivered unreadable : Attempt
  refused : String → Attempt

-- The failed attempt's outbox before the test for a dead message.
unfoldable pub mark_failed : String → Time → ℕ → Outbox → Outbox
unfolding retry_delay duration_jitter
mark_failed error now draw outbox = record outbox {
  last_error = error;
  state = failed;
  next_retry_at = some (now + duration_jitter (retry_delay (outbox.retry_count + 1)) draw);
}

unfoldable pub settle_failure : String → Time → ℕ → Outbox → Outbox
unfolding mark_failed retry_limit_reached
settle_failure error now draw outbox =
    let marked = mark_failed error now draw outbox in
    if retry_limit_reached marked || reached marked.retry_deadline now
    then record marked { state = dead }
    else marked

unfoldable pub settle : Attempt → Time → ℕ → Outbox → Outbox
unfolding settle_failure
settle delivered now draw outbox = record outbox { state = sent }
settle unreadable now draw outbox = settle_failure "invalid stored message" now draw outbox
settle (refused error) now draw outbox = settle_failure error now draw outbox
