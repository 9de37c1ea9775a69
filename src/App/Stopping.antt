-- ===== src/App/Stopping.antt =====
-- What the server's Shutdown leaves.
use kaftar.Prelude.{◌≡◌, String, Option, none, some, [], ◌∷◌}
use kaftar.Service.Accept.{Service}
use kaftar.Service.Shutdown.{IsClosed}
use kaftar.App.Stop.{Endings, Stopped, join, wait_for_collector}

-- The database's handle, or else its closing, fails.
abbrev database_error : Option String → Option String → Option String
database_error (some e) close = some e
database_error none close = close

-- The service is closed, and the errors are those of the parts, in order.
pub record IsEnded (ends : Endings) (s : Stopped) : Type 0 where
  pub closed : IsClosed s.service
  pub told :
      s.errors
      ≡ join (
          ends.web
          ∷ ends.workers
          ∷ wait_for_collector ends.collector
          ∷ database_error ends.handle ends.close
          ∷ [])
