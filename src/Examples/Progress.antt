-- ===== src/Examples/Progress.antt =====
-- A row whose lease ran out, a message that is always refused, a submission that is asked for, and a
-- migration.
use kaftar.Prelude.{
  ℕ, ◌+◌, ◌≤◌, ◌<◌, ◌≡◌, refl, none, some, List, [], ◌∷◌, true, false, All, pos, length, any, arith,
}
use kaftar.Entity.Channel.{channel_sms}
use kaftar.Entity.Message.{sms}
use kaftar.Entity.Outbox.{OutboxStatus}
use kaftar.Entity.State.{sending, pending}
use kaftar.Repo.Errors
use kaftar.Repo.Model.{Row, outbox_entity_to_model}
use kaftar.Repo.Keys.{Distinct}
use kaftar.Examples.Concurrency.{text_ne}
use kaftar.Repo.Table.{Store, select_rows}
use kaftar.Repo.Delivery.{is_due, is_open, reserve_dispatch}
use kaftar.Repo.Progress.{IsCalm, IsServed, reserve_dispatch-IsServed}
use kaftar.Repo.Migrate.{MigrationTx, Database, migrate}
use kaftar.Repo.Migration.{migrate_again}
use kaftar.Service.Errors.{ok}
use kaftar.Service.Accept.{Submission, prepare, accept, new_outbox}
use kaftar.Service.Tracking.{Asked, accept-status}
use kaftar.Service.Workers.{service_status}
use kaftar.System.Retries.{Attempted, attempt_rows, attempts_end}
use kaftar.Examples.{uuids, svc, steady, once, noon, greeting, strokes, count_strokes}
use kaftar.Examples.Telemetry.{waiting_message}

-- Its worker's lease ran out.
abbrev abandoned : Row
abandoned = record (outbox_entity_to_model uuids waiting_message) {
  state = sending;
  attempts = 1;
  max_retries = pos 1;
  lease_token = "t";
  lease_until = some noon;
}

-- It has no attempt left.
abbrev spent : Row
spent = record (outbox_entity_to_model uuids waiting_message) {
  id = "spent";
  message_id = "other";
  state = sending;
  attempts = 2;
  max_retries = pos 1;
  lease_token = "u";
  lease_until = some noon;
}

abbrev due_table : Store
due_table = abandoned ∷ spent ∷ []

calm : IsCalm steady
calm = record { reads = refl; writes = λ id. refl; commits = refl; unlocked = λ r. refl }

apart : Distinct due_table
unfolding outbox_entity_to_model new_outbox strokes
apart = ((λ e. absurd (text_ne "spent" "|" refl e), tt), (tt, tt))

few : length (select_rows (is_due channel_sms noon) due_table) ≤ 32
unfolding select_rows is_due outbox_entity_to_model new_outbox
few = omega arith

reserve_dispatch-IsServed_example :
    ((reserve_dispatch uuids steady channel_sms noon 10 32 due_table).0.1 ≡ none)
    × All
        (IsServed uuids noon 10
          (reserve_dispatch uuids steady channel_sms noon 10 32 due_table).0.0
          (reserve_dispatch uuids steady channel_sms noon 10 32 due_table).1)
        (select_rows (is_due channel_sms noon) due_table)
reserve_dispatch-IsServed_example =
    reserve_dispatch-IsServed uuids steady calm noon 10 channel_sms 32 due_table apart few

abbrev attempt_at : ℕ → Attempted
attempt_at t = record {
  claimed_at = t;
  lease = 60;
  token = "t";
  finished_at = t + 1;
  error = "refused";
  draw = 0;
  clock = t;
}

abbrev fresh : Row
fresh = outbox_entity_to_model uuids waiting_message

abbrev tries : List Attempted
tries = attempt_at noon ∷ attempt_at (noon + 5) ∷ []

within : fresh.attempts ≤ 1
unfolding outbox_entity_to_model new_outbox
within = omega arith

enough : 1 < fresh.attempts + length tries
unfolding outbox_entity_to_model new_outbox
enough = omega arith

limited : fresh.max_retries ≡ pos 1
unfolding outbox_entity_to_model new_outbox
limited = refl

attempts_end_example : is_open (attempt_rows uuids tries fresh).state ≡ false
attempts_end_example = attempts_end uuids tries fresh 1 limited within enough

abbrev prepared : Submission
prepared = record {
  channel = channel_sms;
  payload = 1 ∷ [];
  max_retries = pos 0;
  send_at = none;
  key = "key";
  fingerprint = "digest";
}

abbrev asked : Asked svc steady steady 1 noon (sms greeting) once []
unfolding prepare any strokes count_strokes
asked = record {
  prepared = prepared;
  valid = refl;
  free = refl;
  writes = refl;
  reads = refl;
  parses = refl;
  printed = refl;
}

accept-status_example :
    ((accept svc steady (Errors.ok 1) noon (sms greeting) once []).0 ≡ ok (uuids.print 1))
    × ((answer : OutboxStatus) × (service_status uuids steady
            (uuids.print 1)
            (accept svc steady (Errors.ok 1) noon (sms greeting) once []).1
          ≡ Errors.ok answer)
        × (answer.id ≡ 1)
        × (answer.channel ≡ channel_sms)
        × (answer.state ≡ pending)
        × (answer.retry_count ≡ 0)
        × (answer.max_retries ≡ pos 0))
unfolding asked
accept-status_example = accept-status svc steady steady 1 noon (sms greeting) once [] asked

abbrev migration : MigrationTx
migration = record { postgres = true; clock = noon; fault = λ st. none }

abbrev old : Database
old = record { rows = fresh ∷ []; recorded = false; key_index = false }

migrated : (migrate migration (pos 0) old).0 ≡ Errors.ok tt
unfolding migrate outbox_entity_to_model new_outbox
migrated = refl

migrate_again_example :
    (migrate migration (pos 5) (migrate migration (pos 0) old).1).1
    ≡ (migrate migration (pos 0) old).1
migrate_again_example = migrate_again migration migration (pos 0) (pos 5) old migrated
