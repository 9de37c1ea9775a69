-- ===== src/Examples/Probes.antt =====
-- The readiness of a service with two providers whose checks answer out of order.
use kaftar.Prelude.{ℕ, ◌≡◌, refl, String, Option, none, some, List, [], ◌∷◌, true, false}
use mathlib.Core.List.{Permᴰ}
use mathlib.Core.List.Permᴰ
use kaftar.Entity.Channel.{channel_http, channel_sms}
use kaftar.Service.Workers.{Snapshot, consuming, consumer_at}
use kaftar.Health.Check.{
  Check, Fault, Outcome, finished, expired, run_check, database_check, rabbit_check,
}
use kaftar.Health.Report.{results, readiness, ready}
use kaftar.Health.Ready.{IsOperational, IsFinished, ready-IsOperational, IsOperational-ready}
use kaftar.Health.Verdict.{readiness_order}
use kaftar.Examples.{noon}

abbrev up : Snapshot
up = record {
  shutting_down = false;
  relay_running = true;
  consumers = (channel_http, consuming) ∷ (channel_sms, consuming) ∷ [];
  providers = channel_sms ∷ channel_http ∷ [];
}

abbrev in_time : String → Outcome
in_time name = finished none

abbrev quick : String → ℕ
quick name = 5

abbrev answered : Option (Option Fault)
answered = some none

all-IsFinished : (name : String) → IsFinished (in_time name)
all-IsFinished name = tt

abbrev arrived : List Check
arrived = results in_time quick answered answered up

in_order : Permᴰ (results in_time quick answered answered up) arrived
in_order = Permᴰ.refl arrived

operational : IsOperational answered answered up
unfolding consumer_at
operational = record {
  database = refl;
  rabbit = refl;
  admitting = refl;
  relaying = refl;
  workers = (refl, (refl, tt));
}

IsOperational-ready_example : ready (readiness arrived noon) ≡ true
IsOperational-ready_example =
    IsOperational-ready in_time quick answered answered up arrived noon all-IsFinished in_order
      operational

ready-IsOperational_example : IsOperational answered answered up
ready-IsOperational_example =
    ready-IsOperational in_time quick answered answered up arrived noon in_order (
      IsOperational-ready in_time quick answered answered up arrived noon all-IsFinished in_order
        operational)

abbrev postgres : Check
postgres = run_check in_time quick (database_check answered)

abbrev slow_broker : Check
slow_broker = run_check (λ name. expired Fault.deadline_exceeded) quick (rabbit_check answered)

swapped : Permᴰ (postgres ∷ slow_broker ∷ []) (slow_broker ∷ postgres ∷ [])
swapped = Permᴰ.swap refl refl

readiness_order_example :
    (readiness (postgres ∷ slow_broker ∷ []) noon).status
    ≡ (readiness (slow_broker ∷ postgres ∷ []) noon).status
readiness_order_example =
    readiness_order (postgres ∷ slow_broker ∷ []) (slow_broker ∷ postgres ∷ []) noon swapped
