-- ===== src/App/Startup.antt =====
-- New of server/internal/app/app.go, with initDB, initService and initObservability. A call of the
-- logger's Fatal ends the process; the logger is there.
use kaftar.Prelude.{ℕ, String, Option, none, some, List, false, ℤ, pos, negsuc}
use kaftar.Entity.Time.{Time}
use kaftar.Entity.Channel.{Channel}
use kaftar.Entity.Message.{Bytes, Go}
use kaftar.Repo.Errors
use kaftar.Repo.Model.{Uuids}
use kaftar.Repo.Migrate.{MigrationTx, Database, migrate}
use kaftar.Provider.Client.{Result, ok, err}
use kaftar.Service.Accept
use kaftar.Service.Accept.{Service}
use kaftar.Service.Workers.{Workers, Consumers}
use kaftar.Health.Report
use kaftar.Health.Report.{new_health}
use kaftar.Metrics.Outbox.{CollectorConfig, with_defaults}
use kaftar.App.Config.{Config}
use kaftar.App.Senders.{Sender, Libraries, init_senders, init_service}

-- The packages that the service calls.
pub record Packages : Type 0 where
  pub go : Go
  pub uuids : Uuids
  pub canonical : Bytes → ℤ → Option Time → Option Bytes
  pub digest : Bytes → String

-- The database that is found, how it is reached and migrated, and the fault of its handle.
pub record Found : Type 0 where
  pub connect_fault : Option String
  pub migration : MigrationTx
  pub database : Database
  pub handle_fault : Option String

-- The application: the service and its workers as New makes them, before the goroutines run, the
-- migrated database, and the configurations of the health checks and the collector.
pub record Application : Type 0 where
  pub service : Service
  pub workers : Workers
  pub database : Database
  pub health : Report.HealthConfig
  pub collector : CollectorConfig

-- The text with which Fatal is called.
pub data Fatal : Type 0 where
  database_initialization service_initialization service_creation : Fatal
  observability_initialization : Fatal

pub data Launch : Type 0 where
  halted : Fatal → Launch
  launched : Application → Launch

-- A duration that is not positive counts as none.
abbrev pub at_least_none : ℤ → ℕ
at_least_none (pos d) = d
at_least_none (negsuc d) = 0

unfoldable pub init_observability : Option String → Application → Launch
init_observability none a = launched a
init_observability (some e) a = halted observability_initialization

module _ (packages : Packages) (config : Config) where
  -- The struct that service.New fills, with the loop's channels.
  unfoldable pub service_of : List Channel → Service
  unfolding Accept.or_default
  service_of channels = record {
    go = packages.go;
    uuids = packages.uuids;
    canonical = packages.canonical;
    digest = packages.digest;
    channels = channels;
    retry_max_age = Accept.or_default (some config.message_retry_max_age);
    stopping = false;
  }

  unfoldable pub application : Database → List Channel → Consumers → Application
  unfolding service_of new_health with_defaults
  application database channels consumers = record {
    service = service_of channels;
    workers = record { relay_running = false; consumers = consumers };
    database = database;
    health = new_health (record {
      check_timeout = at_least_none config.health.check_timeout;
      component_timeout = at_least_none config.health.component_timeout;
    });
    collector = with_defaults (record {
      interval = config.metrics.outbox_refresh_interval;
      timeout = config.metrics.outbox_refresh_timeout;
    });
  }

  unfoldable pub with_service :
      Option String → Database → Option (List Channel × Consumers) → Launch
  unfolding init_observability application
  with_service handle database none = halted service_creation
  with_service handle database (some (channels, consumers)) =
      init_observability handle (application database channels consumers)

  unfoldable pub with_senders : Option String → Database → Result (List Sender) → Launch
  unfolding init_service with_service
  with_senders handle database (err e) = halted service_initialization
  with_senders handle database (ok senders) = with_service handle database (init_service senders)

  module _ (libs : Libraries) where
    unfoldable pub with_database :
        Option String → Option String → Errors.Result (Unit {0}) × Database → Launch
    unfolding init_senders with_senders
    with_database (some e) handle migrated = halted database_initialization
    with_database none handle (Errors.err e, database) = halted database_initialization
    with_database none handle (Errors.ok u, database) =
        with_senders handle database (init_senders libs config)

    -- New
    unfoldable pub new_app : Found → Launch
    unfolding migrate with_database
    new_app found =
        with_database found.connect_fault found.handle_fault
          (migrate found.migration config.message_retry_max_age found.database)
