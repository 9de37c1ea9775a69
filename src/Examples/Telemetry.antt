-- ===== src/Examples/Telemetry.antt =====
-- What is counted of a small table, of two results and of a request.
use kaftar.Prelude.{◌≡◌, refl, none, List, [], ◌∷◌, true, All, pos, filter, String}
use kaftar.Entity.Channel.{channel_sms}
use kaftar.Entity.Outbox.{Outbox}
use kaftar.Entity.State
use kaftar.Entity.State.{pending}
use kaftar.Repo.Errors.{ok}
use kaftar.Repo.Model.{outbox_entity_to_model}
use kaftar.Repo.Table.{Store}
use kaftar.Repo.Stats.{OutboxStats, stats, channel_in, channels}
use kaftar.Repo.Counts.{number, live}
use kaftar.Repo.Oldest.{at_once}
use kaftar.Repo.Census.{IsCensus, stats-IsCensus}
use kaftar.Service.Accept.{new_outbox}
use kaftar.Metrics.Vector.{value_at}
use kaftar.Metrics.Observers.{Metrics, new_metrics}
use kaftar.Metrics.Agreement.{
  Agrees, Observed, resulted, attempted, observe_all, observe_all-Agrees,
}
use kaftar.Metrics.Requests.{Request, Outcome, returned, middleware}
use kaftar.Metrics.Balance.{in_flight, middleware-in_flight}
use kaftar.Metrics.Outbox.{refresh_outbox}
use kaftar.Metrics.Gauges.{refresh_outbox-number}
use kaftar.Examples.{uuids, svc, noon}

abbrev pub waiting_message : Outbox
waiting_message =
    record (new_outbox svc
      (record {
        channel = channel_sms;
        payload = 1 ∷ [];
        max_retries = pos 1;
        send_at = none;
        key = "";
        fingerprint = "digest";
      })
      noon) { id = 1 }

abbrev table : Store
table =
    outbox_entity_to_model uuids waiting_message
    ∷ outbox_entity_to_model uuids (record waiting_message { id = 2 })
    ∷ []

stats-IsCensus_example :
    (answer : OutboxStats) × (stats (at_once table) ≡ ok answer) × IsCensus table answer
stats-IsCensus_example = stats-IsCensus table

abbrev metrics : Metrics
metrics = new_metrics none

all_named : All (λ r. State.is_valid r.state ≡ true) table
unfolding State.is_valid outbox_entity_to_model new_outbox
all_named = (refl, (refl, tt))

sms_counted : channel_in channels channel_sms ≡ true
unfolding channel_in
sms_counted = refl

pending_named : State.is_valid pending ≡ true
unfolding State.is_valid
pending_named = refl

refresh_outbox-number_example :
    value_at 0
      (channel_sms ∷ State.to_string pending ∷ [])
      (refresh_outbox (stats (at_once table)) noon metrics).outbox_messages
    ≡ number channel_sms pending (filter live table)
refresh_outbox-number_example =
    refresh_outbox-number table noon metrics channel_sms pending all_named sms_counted pending_named

abbrev calls : List Observed
calls = attempted channel_sms ∷ resulted channel_sms "retry" 5 ∷ resulted channel_sms "dead" 7 ∷ []

observe_all-Agrees_example : Agrees (observe_all calls (new_metrics none))
observe_all-Agrees_example = observe_all-Agrees none calls

abbrev status_request : Request
status_request = record { path = "/api/v1/sms/:id"; method = "GET" }

abbrev handler : Metrics → Metrics × Outcome
handler m = (m, returned 200 none)

untouched :
    (before : Metrics) (labels : List String)
    → in_flight labels (handler before).0 ≡ in_flight labels before
untouched before labels = refl

middleware-in_flight_example :
    in_flight
      ("/api/v1/sms/:id" ∷ "GET" ∷ [])
      (middleware (λ n. "200") handler status_request 5 metrics).0
    ≡ in_flight ("/api/v1/sms/:id" ∷ "GET" ∷ []) metrics
middleware-in_flight_example =
    middleware-in_flight (λ n. "200") handler status_request 5 metrics untouched
      ("/api/v1/sms/:id" ∷ "GET" ∷ [])
