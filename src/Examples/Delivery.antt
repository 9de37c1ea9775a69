-- ===== src/Examples/Delivery.antt =====
-- A notification for a message that its provider refuses.
use kaftar.Prelude.{none, some, [], pos}
use kaftar.Entity.Channel.{channel_sms}
use kaftar.Entity.Outbox.{Outbox}
use kaftar.Repo.Errors
use kaftar.Service.Accept.{new_outbox}
use kaftar.Service.Deliver.{World, handle_delivery}
use kaftar.System.Worker.{Reaches, handle_delivery-Run}
use kaftar.Examples.{svc, steady, noon}
use kaftar.Examples.Concurrency.{retried, retried-IsFresh}

abbrev pub notification : Outbox
notification =
    record (new_outbox svc
      (record {
        channel = channel_sms;
        payload = [];
        max_retries = pos 0;
        send_at = none;
        key = "";
        fingerprint = "";
      })
      noon) { id = 1 }

abbrev pub world : World
world = record {
  decode_envelope = λ body. some notification;
  claimed_at = noon;
  finished_at = noon;
  create_tx = steady;
  claim_tx = steady;
  finish_tx = steady;
  generated = Errors.ok 2;
  token = "t";
  provider = λ m. some "refused";
  draw = 5;
}

handle_delivery-Run_example :
    Reaches svc retried (handle_delivery svc world channel_sms [] retried.store).store
handle_delivery-Run_example = handle_delivery-Run svc world retried channel_sms [] retried-IsFresh
