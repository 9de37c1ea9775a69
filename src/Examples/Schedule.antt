-- ===== src/Examples/Schedule.antt =====
-- The retry schedule and the relay's batches at concrete rows.
use kaftar.Prelude.{ℕ, ◌+◌, ◌*◌, ◌/◌, ◌<◌, ◌≡◌, [], ◌∷◌, pos, none, false, arith}
use kaftar.Entity.Time.{second}
use kaftar.Entity.Channel.{channel_sms}
use kaftar.Entity.Outbox.{Outbox}
use kaftar.Repo.Model.{Row, outbox_entity_to_model}
use kaftar.Repo.Delivery.{is_due, transition_values, reserve_row}
use kaftar.Repo.Pacing.{reserve_row-paced}
use kaftar.Service.Accept.{new_outbox}
use kaftar.Service.Retry.{retry_delay}
use kaftar.Service.Settle.{mark_failed}
use kaftar.Service.Delays.{IsPutOff, mark_failed-IsPutOff}
use kaftar.Examples.{uuids, svc, noon}

abbrev message : Outbox
message =
    new_outbox svc
      (record {
        channel = channel_sms;
        payload = 1 ∷ [];
        max_retries = pos 1;
        send_at = none;
        key = "key";
        fingerprint = "digest";
      })
      noon

abbrev row : Row
row = outbox_entity_to_model uuids message

abbrev interval : ℕ
interval = 10 * second

early_enough : noon + 1 < noon + interval
early_enough = omega arith

reserve_row-paced_example :
    is_due channel_sms (noon + 1) (transition_values (reserve_row noon interval row).0 noon row)
    ≡ false
reserve_row-paced_example =
    reserve_row-paced channel_sms noon (noon + 1) noon interval row early_enough

drawn : 5 < retry_delay (message.retry_count + 1) / 5
unfolding retry_delay new_outbox
drawn = omega arith

mark_failed-IsPutOff_example :
    IsPutOff noon message (mark_failed "refused" noon 5 message).next_retry_at
mark_failed-IsPutOff_example = mark_failed-IsPutOff "refused" noon 5 message drawn
