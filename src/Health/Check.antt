-- ===== src/Health/Check.antt =====
-- The data of health.go and the single checks. The database and the broker are answers.
use kaftar.Prelude.{ℕ, String, Option, none, some, Bool, true, false, not, if◌then◌else◌, ◌||◌}
use Prim.Native.String.{◌++◌ as append}
use kaftar.Entity.Channel.{Channel}
use kaftar.Service.Workers.{WorkerHealth, Snapshot, consumer_at}

pub data Status : Type 0 where
  healthy degraded disabled unhealthy : Status

abbrev pub is_healthy : Status → Bool
is_healthy healthy = true
is_healthy _ = false

abbrev pub is_disabled : Status → Bool
is_disabled disabled = true
is_disabled _ = false

-- DurationMillis is Duration in another unit.
pub record Check : Type 0 where
  pub name : String
  pub kind : String
  pub status : Status
  pub critical : Bool
  pub reason : String
  pub duration : ℕ

-- What an error wraps, as far as errors.Is asks: the context's two errors, or another.
pub data Fault : Type 0 where
  deadline_exceeded canceled unclassified : Fault

abbrev pub is_deadline : Option Fault → Bool
is_deadline (some deadline_exceeded) = true
is_deadline _ = false

abbrev pub is_canceled : Option Fault → Bool
is_canceled (some canceled) = true
is_canceled _ = false

-- failedCheck: `context` is ctx.Err(), `error` the component's error.
unfoldable pub failed_check : Option Fault → Fault → Status × String
failed_check context error =
    if is_deadline context || is_deadline (some error)
    then (unhealthy, "timeout")
    else if is_canceled context || is_canceled (some error)
    then (unhealthy, "canceled")
    else (unhealthy, "unavailable")

-- checkSpec. `run` takes what ctx.Err() is when the component has answered.
pub record CheckSpec : Type 0 where
  pub name : String
  pub kind : String
  pub critical : Bool
  pub run : Option Fault → Status × String

-- A dependency: none is not configured, `some none` answered without an error.
abbrev pub dependency : Option (Option Fault) → Option Fault → Status × String
unfolding failed_check
dependency none context = (unhealthy, "not_configured")
dependency (some none) context = (healthy, "")
dependency (some (some error)) context = failed_check context error

unfoldable pub database_check : Option (Option Fault) → CheckSpec
unfolding failed_check
database_check ping = record {
  name = "postgres";
  kind = "dependency";
  critical = true;
  run = dependency ping;
}

unfoldable pub rabbit_check : Option (Option Fault) → CheckSpec
unfolding failed_check
rabbit_check answer = record {
  name = "rabbitmq";
  kind = "dependency";
  critical = true;
  run = dependency answer;
}

abbrev pub relay_status : Snapshot → Status × String
relay_status snapshot =
    if snapshot.shutting_down
    then (unhealthy, "shutting_down")
    else if not snapshot.relay_running
    then (unhealthy, "stopped")
    else (healthy, "")

unfoldable pub relay_check : Snapshot → CheckSpec
relay_check snapshot = record {
  name = "relay";
  kind = "service";
  critical = true;
  run = λ context. relay_status snapshot;
}

abbrev pub worker_status : WorkerHealth → Status × String
worker_status worker =
    if not worker.running
    then (unhealthy, "stopped")
    else if not worker.connected
    then (unhealthy, "disconnected")
    else (healthy, "")

abbrev pub consumer_status : Snapshot → WorkerHealth → Status × String
consumer_status snapshot worker =
    if snapshot.shutting_down then (unhealthy, "shutting_down") else worker_status worker

unfoldable pub consumer_check : Snapshot → Channel → CheckSpec
unfolding consumer_at
consumer_check snapshot channel = record {
  name = append "consumer_" channel;
  kind = "service";
  critical = true;
  run = λ context. consumer_status snapshot (consumer_at channel snapshot.consumers);
}

unfoldable pub provider_check : Channel → Bool → CheckSpec
provider_check channel enabled = record {
  name = append "provider_" channel;
  kind = "provider";
  critical = false;
  run = λ context. if enabled then (degraded, "remote_unverified") else (disabled, "disabled");
}

-- What the select in runCheck saw: the check's own result, with ctx.Err() at that time, or the end
-- of the component's context first.
pub data Outcome : Type 0 where
  finished : Option Fault → Outcome
  expired : Fault → Outcome

abbrev pub outcome_status : CheckSpec → Outcome → Status × String
unfolding failed_check
outcome_status spec (finished context) = spec.run context
outcome_status spec (expired error) = (unhealthy, (failed_check (some error) error).1)

unfoldable pub run_check : (String → Outcome) → (String → ℕ) → CheckSpec → Check
unfolding failed_check
run_check outcomes durations spec =
    let (status, reason) = outcome_status spec (outcomes spec.name) in
    record {
      name = spec.name;
      kind = spec.kind;
      status = status;
      critical = spec.critical;
      reason = reason;
      duration = durations spec.name;
    }
