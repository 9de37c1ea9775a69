-- ===== src/App/Stop.antt =====
-- Shutdown of server/internal/api/http/http.go and of server/internal/app/app.go.
use kaftar.Prelude.{String, Option, none, some, List, [], ◌∷◌, ◌++◌}
use kaftar.Service.Accept.{Service}
use kaftar.Service.Broker.{Connection}
use kaftar.Service.Workers.{begin_shutdown}
use kaftar.Service.Shutdown.{shutdown}

-- A channel of the collector, as the select of waitForCollector finds it: nil, closed, or open when
-- the context is done with an error.
pub data CollectorDone : Type 0 where
  no_collector collector_closed : CollectorDone
  context_first : String → CollectorDone

unfoldable pub wait_for_collector : CollectorDone → Option String
wait_for_collector no_collector = none
wait_for_collector collector_closed = none
wait_for_collector (context_first e) = some e

-- How the parts end: the web framework, the service's workers (none: they finished before the
-- context was done), the collector, the handle of the database, and its closing.
pub record Endings : Type 0 where
  pub web : Option String
  pub workers : Option String
  pub collector : CollectorDone
  pub handle : Option String
  pub close : Option String

-- What is done, in order.
pub data Stopping : Type 0 where
  submissions_refused web_stopped service_shut runtime_cancelled collector_awaited : Stopping
  database_closed : Stopping

pub record Stopped : Type 0 where
  pub service : Service
  pub errors : List String
  pub done : List Stopping

-- errors.Join: nil errors are left out.
unfoldable pub join : List (Option String) → List String
join [] = []
join (none ∷ es) = join es
join (some e ∷ es) = e ∷ join es

module _ (ends : Endings) (connection : Option Connection) where
  -- (*app).Shutdown
  unfoldable pub app_shutdown : Service → Stopped
  unfolding shutdown join wait_for_collector
  app_shutdown svc =
      let shut = shutdown ends.workers connection svc in
      let waited = service_shut ∷ runtime_cancelled ∷ collector_awaited ∷ [] in
      elim ends.handle [
        | some e ↦ record {
          service = shut.service;
          errors = join (shut.error ∷ wait_for_collector ends.collector ∷ some e ∷ []);
          done = waited;
        }
        | none ↦ record {
          service = shut.service;
          errors = join (shut.error ∷ wait_for_collector ends.collector ∷ ends.close ∷ []);
          done = waited ++ database_closed ∷ [];
        }
      ]

  -- (*httpServer).Shutdown
  unfoldable pub server_shutdown : Service → Stopped
  unfolding app_shutdown begin_shutdown join
  server_shutdown svc =
      let stopped = app_shutdown (begin_shutdown svc) in
      record {
        service = stopped.service;
        errors = join (ends.web ∷ []) ++ stopped.errors;
        done = submissions_refused ∷ web_stopped ∷ stopped.done;
      }
