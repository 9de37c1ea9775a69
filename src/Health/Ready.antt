-- ===== src/Health/Ready.antt =====
-- What a ready report means for the parts, whatever order the checks answer in.
use kaftar.Prelude.{
  ℕ, String, ◌≡◌, refl, sym, ap, ◌∙◌, Option, none, some, List, [], ◌∷◌, map, Bool, true, false,
  not, ◌&&◌, ◌||◌, any, All, All-mono, arith, sort_by, any-sort_by, any-perm, any-append, any-map,
  any-All, All-any, str_eq,
}
use mathlib.Core.List.{Permᴰ}
use mathlib.Core.Bool.{or-false}
use kaftar.Entity.Time.{Time}
use kaftar.Entity.Channel.{Channel}
use kaftar.Service.Workers.{WorkerHealth, Snapshot, consumer_at, consuming}
use kaftar.Health.Check.{
  is_healthy, Check, CheckSpec, Fault, Outcome, finished, expired, outcome_status, failed_check,
  dependency, relay_status, consumer_status, run_check, database_check, rabbit_check, relay_check,
  consumer_check, provider_check,
}
use kaftar.Health.Report.{
  fails, ready, specs, results, readiness, text_lt, name_lt, provider_channels,
}
use kaftar.Health.Aggregate.{none_fails-any}

-- Everything that the readiness of the process depends on.
pub record IsOperational (ping broker : Option (Option Fault)) (snapshot : Snapshot) : Type 0 where
  pub database : ping ≡ some none
  pub rabbit : broker ≡ some none
  pub admitting : snapshot.shutting_down ≡ false
  pub relaying : snapshot.relay_running ≡ true
  pub workers : All (λ c. consumer_at c snapshot.consumers ≡ consuming) snapshot.providers

-- The component answered before its context ended.
abbrev pub IsFinished : Outcome → Type 0
IsFinished (finished context) = Unit
IsFinished (expired error) = ⊥

module _ (outcomes : String → Outcome) (durations : String → ℕ) where
  abbrev spec_fails : CheckSpec → Bool
  unfolding run_check
  spec_fails spec = fails (run_check outcomes durations spec)

  not-false : (b : Bool) → not b ≡ false → b ≡ true
  not-false true h = refl
  not-false false h = sym h

  -- A critical check that does not fail ran to its end, and answered that it is healthy.
  critical_passes :
      (spec : CheckSpec)
      → spec.critical ≡ true
      → spec_fails spec ≡ false
      → (context : Option Fault) × (is_healthy (spec.run context).0 ≡ true)
  unfolding run_check
  critical_passes spec c h =
      outcome_passes (outcomes spec.name)
        (not-false (is_healthy (outcome_status spec (outcomes spec.name)).0) (cc (c, h)))
    where
      outcome_passes :
          (o : Outcome)
          → is_healthy (outcome_status spec o).0 ≡ true
          → (context : Option Fault) × (is_healthy (spec.run context).0 ≡ true)
      outcome_passes (finished context) h = (context, h)
      outcome_passes (expired error) h = absurd (grind arith)

  dependency_passes :
      (answer : Option (Option Fault)) (context : Option Fault)
      → is_healthy (dependency answer context).0 ≡ true
      → answer ≡ some none
  unfolding failed_check
  dependency_passes none context h = absurd (grind arith)
  dependency_passes (some none) context h = refl
  dependency_passes (some (some error)) context h = absurd (ground arith)

  relay_passes :
      (snapshot : Snapshot)
      → is_healthy (relay_status snapshot).0 ≡ true
      → (snapshot.shutting_down ≡ false) × (snapshot.relay_running ≡ true)
  relay_passes snapshot h = ground arith

  consumer_passes :
      (snapshot : Snapshot) (running connected : Bool)
      → is_healthy
          (consumer_status snapshot (record { running = running; connected = connected })).0
        ≡ true
      → (running ≡ true) × (connected ≡ true)
  consumer_passes snapshot running connected h = ground arith

  providers_pass :
      (p : Channel → Bool) (channels : List Channel)
      → any spec_fails (map (λ c. provider_check c (p c)) channels) ≡ false
  unfolding provider_check run_check any
  providers_pass p [] = refl
  providers_pass p (c ∷ channels) = providers_pass p channels

  -- The critical checks that Readiness starts are these.
  specs_fail :
      (ping broker : Option (Option Fault)) (snapshot : Snapshot)
      → any fails (results outcomes durations ping broker snapshot) ≡ (
          spec_fails (database_check ping)
          || (spec_fails (rabbit_check broker)
              || (spec_fails (relay_check snapshot)
                  || any (λ c. spec_fails (consumer_check snapshot c)) snapshot.providers)))
  unfolding results specs any
  specs_fail ping broker snapshot =
      let channels = sort_by text_lt snapshot.providers in
      let enabled = (λ (c : Channel). any (λ k. str_eq k c) channels) in
      any-map fails (run_check outcomes durations) (specs ping broker snapshot)
      ∙ cc (
        any-append spec_fails (map (consumer_check snapshot) channels)
            (map (λ c. provider_check c (enabled c)) provider_channels),
        any-map spec_fails (consumer_check snapshot) channels,
        any-sort_by (λ c. spec_fails (consumer_check snapshot c)) text_lt snapshot.providers,
        providers_pass enabled provider_channels,
        or-false (any (λ c. spec_fails (consumer_check snapshot c)) snapshot.providers),
      )

  ready-specs :
      (ping broker : Option (Option Fault)) (snapshot : Snapshot) (arrived : List Check)
      (now : Time)
      → Permᴰ (results outcomes durations ping broker snapshot) arrived
      → ready (readiness arrived now)
        ≡ not (
            spec_fails (database_check ping)
            || (spec_fails (rabbit_check broker)
                || (spec_fails (relay_check snapshot)
                    || any (λ c. spec_fails (consumer_check snapshot c)) snapshot.providers)))
  unfolding ready readiness
  ready-specs ping broker snapshot arrived now h =
      none_fails-any (sort_by name_lt arrived)
      ∙ ap not (
          any-sort_by fails name_lt arrived
          ∙ sym (any-perm fails h)
          ∙ specs_fail ping broker snapshot)

  split_or :
      (a b c d : Bool)
      → not (a || (b || (c || d))) ≡ true
      → (a ≡ false) × (b ≡ false) × (c ≡ false) × (d ≡ false)
  split_or a b c d h = ground arith

  consuming_eta : (w : WorkerHealth) → w.running ≡ true → w.connected ≡ true → w ≡ consuming
  consuming_eta w r c = λ i. record { running = r i; connected = c i }

  -- Whatever was slow and in whatever order the results arrive, a ready report means that the
  -- database and the broker are configured and answered without an error, that the service is
  -- not shutting down, that the relay runs, and that the consumer of every provider runs and
  -- is connected.
  pub ready-IsOperational :
      (ping broker : Option (Option Fault)) (snapshot : Snapshot) (arrived : List Check)
      (now : Time)
      → Permᴰ (results outcomes durations ping broker snapshot) arrived
      → ready (readiness arrived now) ≡ true
      → IsOperational ping broker snapshot
  unfolding database_check rabbit_check relay_check consumer_check
  ready-IsOperational ping broker snapshot arrived now h r =
      let passed =
        split_or (spec_fails (database_check ping)) (spec_fails (rabbit_check broker))
          (spec_fails (relay_check snapshot))
          (any (λ c. spec_fails (consumer_check snapshot c)) snapshot.providers)
          (sym (ready-specs ping broker snapshot arrived now h) ∙ r) in
      let database = critical_passes (database_check ping) refl passed.0 in
      let rabbit = critical_passes (rabbit_check broker) refl passed.1 in
      let relay = relay_passes snapshot (critical_passes (relay_check snapshot) refl passed.2).1 in
      record {
        database = dependency_passes ping database.0 database.1;
        rabbit = dependency_passes broker rabbit.0 rabbit.1;
        admitting = relay.0;
        relaying = relay.1;
        workers =
            All-mono
              (λ c p.
                let worker =
                  consumer_passes snapshot (consumer_at c snapshot.consumers).running
                    (consumer_at c snapshot.consumers).connected
                    (critical_passes (consumer_check snapshot c) refl p).1 in
                consuming_eta (consumer_at c snapshot.consumers) worker.0 worker.1)
              snapshot.providers
              (any-All (λ c. spec_fails (consumer_check snapshot c)) snapshot.providers passed.3);
      }

  and_not : (a b : Bool) → b ≡ true → (a && not b) ≡ false
  and_not a b h = ground arith

  -- A check that answers in time does not fail if it answers that it is healthy.
  healthy_passes :
      (spec : CheckSpec)
      → IsFinished (outcomes spec.name)
      → ((context : Option Fault) → is_healthy (spec.run context).0 ≡ true)
      → spec_fails spec ≡ false
  unfolding run_check
  healthy_passes spec f h = by_outcome (outcomes spec.name) refl f
    where
      by_outcome : (o : Outcome) → o ≡ outcomes spec.name → IsFinished o → spec_fails spec ≡ false
      by_outcome (finished context) e f =
          and_not spec.critical (is_healthy (outcome_status spec (outcomes spec.name)).0)
            (ap (λ o. is_healthy (outcome_status spec o).0) (sym e) ∙ h context)
      by_outcome (expired error) e f = absurd f

  -- If every check answers before its context ends, and the database, the broker, the relay
  -- and every provider's consumer are as they should be, the report is ready, in whatever
  -- order the results arrive.
  pub IsOperational-ready :
      (ping broker : Option (Option Fault)) (snapshot : Snapshot) (arrived : List Check)
      (now : Time)
      → ((name : String) → IsFinished (outcomes name))
      → Permᴰ (results outcomes durations ping broker snapshot) arrived
      → IsOperational ping broker snapshot
      → ready (readiness arrived now) ≡ true
  unfolding database_check rabbit_check relay_check consumer_check failed_check
  IsOperational-ready ping broker snapshot arrived now f h o =
      ready-specs ping broker snapshot arrived now h
      ∙ cc (
        healthy_passes (database_check ping) (f "postgres")
            (λ c. ap (λ a. is_healthy (dependency a c).0) o.database),
        healthy_passes (rabbit_check broker) (f "rabbitmq")
            (λ c. ap (λ a. is_healthy (dependency a c).0) o.rabbit),
        healthy_passes (relay_check snapshot) (f "relay") (λ c. cc (o.admitting, o.relaying)),
        All-any (λ c. spec_fails (consumer_check snapshot c)) snapshot.providers
            (All-mono
              (λ c w.
                healthy_passes (consumer_check snapshot c) (f (consumer_check snapshot c).name)
                  (λ x. cc (w, o.admitting)))
              snapshot.providers o.workers),
      )
