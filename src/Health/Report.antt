-- ===== src/Health/Report.antt =====
-- Liveness and Readiness. The results of the checks come over a channel in any order: `arrived` is
-- what the loop over the channel collected.
use kaftar.Prelude.{
  ℕ, zero, suc, String, Option, List, [], ◌∷◌, ◌++◌, map, Bool, true, false, not, if◌then◌else◌,
  ◌&&◌, any, str_eq, sort_by, ltb, ◌*◌,
}
use Prim.Native.String.{compare}
use Prim.Native.Nat.{Ordering}
use kaftar.Entity.Time.{Time, second}
use kaftar.Entity.Channel.{
  Channel, channel_bale, channel_email, channel_http, channel_mattermost, channel_sms,
}
use kaftar.Service.Workers.{Snapshot}
use kaftar.Health.Check.{
  Status, healthy, degraded, unhealthy, is_healthy, is_disabled, Check, CheckSpec, Fault, Outcome,
  database_check, rabbit_check, relay_check, consumer_check, provider_check, run_check,
}

pub record Report : Type 0 where
  pub status : Status
  pub checked_at : Time
  pub checks : List Check

-- A critical check that is not healthy.
abbrev pub fails : Check → Bool
fails check = check.critical && not (is_healthy check.status)

-- The loop of Ready.
unfoldable pub none_fails : List Check → Bool
none_fails [] = true
none_fails (check ∷ checks) = if fails check then false else none_fails checks

-- (Report).Ready
unfoldable pub ready : Report → Bool
unfolding none_fails
ready report = none_fails report.checks

-- The loop of aggregateStatus, with its variable `status`.
unfoldable pub aggregate_from : Status → List Check → Status
aggregate_from status [] = status
aggregate_from status (check ∷ checks) =
    if fails check
    then unhealthy
    else aggregate_from
        (if not (is_healthy check.status) && not (is_disabled check.status)
          then degraded
          else status)
        checks

unfoldable pub aggregate_status : List Check → Status
unfolding aggregate_from
aggregate_status checks = aggregate_from healthy checks

-- Durations in nanoseconds; 0 stands for a duration that is not positive.
pub record HealthConfig : Type 0 where
  pub check_timeout : ℕ
  pub component_timeout : ℕ

abbrev pub check_timeout_of : ℕ → ℕ
check_timeout_of zero = 3 * second
check_timeout_of (suc t) = suc t

-- The defaults of NewHealth.
unfoldable pub new_health : HealthConfig → HealthConfig
new_health config =
    let timeout = check_timeout_of config.check_timeout in
    record {
      check_timeout = timeout;
      component_timeout =
          if ltb 0 config.component_timeout && not (ltb timeout config.component_timeout)
          then config.component_timeout
          else timeout;
    }

abbrev pub process_check : Bool → Check
process_check shutting_down = record {
  name = "process";
  kind = "process";
  status = if shutting_down then unhealthy else healthy;
  critical = true;
  reason = if shutting_down then "shutting_down" else "";
  duration = 0;
}

unfoldable pub liveness : Snapshot → Time → Report
liveness snapshot now = record {
  status = (process_check snapshot.shutting_down).status;
  checked_at = now;
  checks = process_check snapshot.shutting_down ∷ [];
}

abbrev pub provider_channels : List Channel
provider_channels =
    channel_bale ∷ channel_email ∷ channel_http ∷ channel_mattermost ∷ channel_sms ∷ []

abbrev pub text_lt : String → String → Bool
text_lt a b = elim (compare a b) [ Ordering.lt ↦ true | _ ↦ false ]

abbrev pub name_lt : Check → Check → Bool
name_lt a b = text_lt a.name b.name

-- The checks that Readiness starts.
unfoldable pub specs : Option (Option Fault) → Option (Option Fault) → Snapshot → List CheckSpec
unfolding database_check rabbit_check relay_check consumer_check provider_check sort_by any
specs ping broker snapshot =
    let channels = sort_by text_lt snapshot.providers in
    database_check ping
      ∷ rabbit_check broker
      ∷ relay_check snapshot
      ∷ map (consumer_check snapshot) channels
    ++ map (λ c. provider_check c (any (λ k. str_eq k c) channels)) provider_channels

-- The results of the goroutines, in the order in which they were started.
unfoldable pub results :
    (String → Outcome)
    → (String → ℕ)
    → Option (Option Fault)
    → Option (Option Fault)
    → Snapshot
    → List Check
unfolding specs run_check
results outcomes durations ping broker snapshot =
    map (run_check outcomes durations) (specs ping broker snapshot)

-- The report over the results that have arrived.
unfoldable pub readiness : List Check → Time → Report
unfolding sort_by aggregate_status
readiness arrived now =
    let checks = sort_by name_lt arrived in
    record { status = aggregate_status checks; checked_at = now; checks = checks }
