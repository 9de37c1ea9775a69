-- ===== src/App/Starting.antt =====
-- What an application that has started is like.
use kaftar.Prelude.{
  ℕ, zero, suc, ◌<◌, ◌≤◌, ◌≡◌, refl, sym, ◌∙◌, ap, subst, arith, String, Option, none, some, List,
  true, false, pos, ltb_ℤ,
}
use kaftar.Entity.Channel.{Channel}
use kaftar.Repo.Errors
use kaftar.Repo.Migrate.{Database, migrate}
use kaftar.Repo.Migration.{recorded_then}
use kaftar.Provider.Client.{Result, ok, err}
use kaftar.Service.Workers.{Consumers}
use kaftar.Health.Report
use kaftar.Health.Report.{new_health}
use kaftar.Metrics.Outbox.{CollectorConfig, with_defaults}
use kaftar.App.Config.{Config}
use kaftar.App.Senders.{Sender, Libraries, init_senders, init_service}
use kaftar.App.Wiring.{enabled_channels, init_senders-channels}
use kaftar.App.Startup.{
  Packages, Found, Application, Launch, halted, launched, init_observability, application,
  with_service, with_senders, with_database, new_app, service_of,
}

-- Timeouts as the health checks need them.
pub record IsTimed (h : Report.HealthConfig) : Type 0 where
  pub checks : 0 < h.check_timeout
  pub components : 0 < h.component_timeout
  pub within : h.component_timeout ≤ h.check_timeout

new_health-IsTimed : (h : Report.HealthConfig) → IsTimed (new_health h)
unfolding new_health
new_health-IsTimed h = record {
  checks = positive h.check_timeout;
  components = ground (arith, positive h.check_timeout);
  within = ground arith;
}
  where
    positive : (t : ℕ) → 0 < Report.check_timeout_of t
    positive zero = omega arith
    positive (suc t) = omega arith

-- A collector that ticks and waits.
pub record IsPaced (c : CollectorConfig) : Type 0 where
  pub ticks : ltb_ℤ (pos 0) c.interval ≡ true
  pub waits : ltb_ℤ (pos 0) c.timeout ≡ true

with_defaults-IsPaced : (c : CollectorConfig) → IsPaced (with_defaults c)
unfolding with_defaults
with_defaults-IsPaced c = record { ticks = ground arith; waits = ground arith }

pub record IsReady (config : Config) (found : Found) (a : Application) : Type 0 where
  pub migrated :
      a.database ≡ (migrate found.migration config.message_retry_max_age found.database).1
  pub recorded : a.database.recorded ≡ true
  pub channels : a.service.channels ≡ enabled_channels config
  pub open_for : a.service.stopping ≡ false
  pub timed : IsTimed a.health
  pub paced : IsPaced a.collector

abbrev from_launch : Application → Launch → Application
from_launch x (halted e) = x
from_launch x (launched a) = a

abbrev from_some : List Channel → Option (List Channel × Consumers) → List Channel
from_some x none = x
from_some x (some (channels, consumers)) = channels

module _ (packages : Packages) (libs : Libraries) (config : Config) (found : Found) where
  abbrev migration : Errors.Result (Unit {0}) × Database
  migration = migrate found.migration config.message_retry_max_age found.database

  observed-IsReady :
      (handle : Option String) (x a : Application)
      → init_observability handle x ≡ launched a
      → IsReady config found x
      → IsReady config found a
  unfolding init_observability
  observed-IsReady none x a h r = subst (IsReady config found) (ap (from_launch x) h) r
  observed-IsReady (some e) x a h r = absurd (ground arith)

  served-IsReady :
      (handle : Option String) (o : Option (List Channel × Consumers)) (a : Application)
      → migration.0 ≡ Errors.ok tt
      → ((channels : List Channel) (consumers : Consumers)
          → o ≡ some (channels, consumers)
          → channels ≡ enabled_channels config)
      → with_service packages config handle migration.1 o ≡ launched a
      → IsReady config found a
  unfolding with_service application service_of
  served-IsReady handle none a m k h = absurd (ground arith)
  served-IsReady handle (some (channels, consumers)) a m k h =
      observed-IsReady handle (application packages config migration.1 channels consumers) a h
        (record {
          migrated = refl;
          recorded = recorded_then found.migration config.message_retry_max_age found.database m;
          channels = k channels consumers refl;
          open_for = refl;
          timed = new_health-IsTimed _;
          paced = with_defaults-IsPaced (record {
            interval = config.metrics.outbox_refresh_interval;
            timeout = config.metrics.outbox_refresh_timeout;
          });
        })

  senders-IsReady :
      (handle : Option String) (r : Result (List Sender)) (a : Application)
      → migration.0 ≡ Errors.ok tt
      → init_senders libs config ≡ r
      → with_senders packages config handle migration.1 r ≡ launched a
      → IsReady config found a
  unfolding with_senders
  senders-IsReady handle (err e) a m s h = absurd (ground arith)
  senders-IsReady handle (ok senders) a m s h =
      let (made, (consumers', made_of)) = init_senders-channels libs config senders s in
      served-IsReady handle (init_service senders) a m
        (λ channels consumers e. ap (from_some channels) (sym e ∙ made_of)) h

  database-IsReady :
      (connect handle : Option String) (m : Errors.Result (Unit {0}) × Database) (a : Application)
      → migration ≡ m
      → with_database packages config libs connect handle m ≡ launched a
      → IsReady config found a
  unfolding with_database
  database-IsReady (some e) handle m a k h = absurd (ground arith)
  database-IsReady none handle (Errors.err e, d) a k h = absurd (ground arith)
  database-IsReady none handle (Errors.ok u, d) a k h =
      senders-IsReady handle (init_senders libs config) a (ap (λ p. p.0) k) refl
        (ap (λ p. with_senders packages config handle p.1 (init_senders libs config)) k ∙ h)

  -- If New starts the application, the database it has is the one it found, migrated and recorded
  -- so; the service is open, for the channels that the configuration enables; a component's check
  -- has a positive timeout within that of all checks; and the collector's interval and timeout are
  -- positive.
  pub new_app-IsReady :
      (a : Application) → new_app packages config libs found ≡ launched a → IsReady config found a
  unfolding new_app
  new_app-IsReady a h = database-IsReady found.connect_fault found.handle_fault migration a refl h
