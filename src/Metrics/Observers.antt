-- ===== src/Metrics/Observers.antt =====
-- The record of the metrics, NewMetrics, and the methods that the service and the health checks
-- call. Counters and gauges are numbers, a duration is in seconds; a histogram is the list of what
-- it observed, with the last first.
use kaftar.Prelude.{
  ℕ, suc, ◌/◌, ◌%◌, String, Option, List, [], ◌∷◌, Bool, true, false, str_eq, ℤ, if◌then◌else◌,
}
use kaftar.Entity.Time.{second}
use kaftar.Entity.Channel.{Channel}
use kaftar.Health.Check.{Status, healthy}
use kaftar.Health.Check
use kaftar.Metrics.Vector.{Vector, change}
use kaftar.Metrics.Labels.{channel_label, bool_value}
use kaftar.Metrics.Build.{BuildInfo, read_build_info}

-- Duration.Seconds: whole seconds, and the nanoseconds of the fraction. Go adds them as floats.
pub record Seconds : Type 0 where
  pub whole : ℕ
  pub nanoseconds : ℕ

unfoldable pub seconds : ℕ → Seconds
seconds d = record { whole = d / second; nanoseconds = d % second }

pub record Metrics : Type 0 where
  pub http_requests : Vector ℕ
  pub http_duration : Vector (List Seconds)
  pub http_in_flight : Vector ℤ
  pub submissions : Vector ℕ
  pub delivery_attempts : Vector ℕ
  pub delivery_results : Vector ℕ
  pub delivery_duration : Vector (List Seconds)
  pub retries : Vector ℕ
  pub dead_messages : Vector ℕ
  pub broker_errors : Vector ℕ
  pub health_status : Vector ℕ
  pub health_duration : Vector (List Seconds)
  pub worker_ready : Vector ℕ
  pub outbox_messages : Vector ℕ
  pub outbox_oldest_pending_age : Vector Seconds
  pub outbox_collector_success : ℕ
  pub outbox_collector_last_success : ℕ
  pub build_info : Vector ℕ

-- NewMetrics and register
unfoldable pub new_metrics : Option BuildInfo → Metrics
unfolding read_build_info change
new_metrics info =
    let b = read_build_info info in
    record {
      http_requests = [];
      http_duration = [];
      http_in_flight = [];
      submissions = [];
      delivery_attempts = [];
      delivery_results = [];
      delivery_duration = [];
      retries = [];
      dead_messages = [];
      broker_errors = [];
      health_status = [];
      health_duration = [];
      worker_ready = [];
      outbox_messages = [];
      outbox_oldest_pending_age = [];
      outbox_collector_success = 0;
      outbox_collector_last_success = 0;
      build_info = change 0 (b.version ∷ b.revision ∷ b.modified ∷ []) (λ n. 1) [];
    }

-- WithLabelValues(...).Inc(), .Set(v) and .Observe(d).
unfoldable pub inc : List String → Vector ℕ → Vector ℕ
unfolding change
inc labels = change 0 labels suc

unfoldable pub set : List String → ℕ → Vector ℕ → Vector ℕ
unfolding change
set labels n = change 0 labels (λ old. n)

unfoldable pub note : List String → ℕ → Vector (List Seconds) → Vector (List Seconds)
unfolding change seconds
note labels d = change [] labels (λ seen. seconds d ∷ seen)

unfoldable pub observe_broker_error : String → Channel → Metrics → Metrics
unfolding inc channel_label
observe_broker_error operation channel m = record m {
  broker_errors = inc (operation ∷ channel_label channel ∷ []) m.broker_errors;
}

unfoldable pub observe_delivery_attempt : Channel → Metrics → Metrics
unfolding inc channel_label
observe_delivery_attempt channel m = record m {
  delivery_attempts = inc (channel_label channel ∷ []) m.delivery_attempts;
}

unfoldable pub observe_delivery_result : Channel → String → ℕ → Metrics → Metrics
unfolding inc note channel_label
observe_delivery_result channel outcome duration m =
    let label = channel_label channel in
    record m {
      delivery_results = inc (label ∷ outcome ∷ []) m.delivery_results;
      delivery_duration = note (label ∷ outcome ∷ []) duration m.delivery_duration;
      retries = if str_eq outcome "retry" then inc (label ∷ []) m.retries else m.retries;
      dead_messages =
          if str_eq outcome "dead" then inc (label ∷ []) m.dead_messages else m.dead_messages;
    }

unfoldable pub observe_submission : Channel → String → Metrics → Metrics
unfolding inc channel_label
observe_submission channel outcome m = record m {
  submissions = inc (channel_label channel ∷ outcome ∷ []) m.submissions;
}

unfoldable pub set_worker_ready : String → Channel → Bool → Metrics → Metrics
unfolding set channel_label bool_value
set_worker_ready worker channel ready m = record m {
  worker_ready = set (worker ∷ channel_label channel ∷ []) (bool_value ready) m.worker_ready;
}

abbrev is_healthy : Status → Bool
is_healthy healthy = true
is_healthy _ = false

unfoldable pub observe_health : Check.Check → Metrics → Metrics
unfolding set note bool_value
observe_health check m = record m {
  health_status = set (check.name ∷ []) (bool_value (is_healthy check.status)) m.health_status;
  health_duration = note (check.name ∷ []) check.duration m.health_duration;
}
