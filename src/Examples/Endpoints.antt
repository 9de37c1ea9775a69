-- ===== src/Examples/Endpoints.antt =====
-- A request whose submission cannot be saved.
use kaftar.Prelude.{ℕ, ◌≡◌, ◌≢◌, refl, String, Option, none, some, [], true, pos, arith}
use kaftar.Entity.Message.{Bytes}
use kaftar.Repo.Errors
use kaftar.Repo.Table.{Tx}
use kaftar.Api.Reply.{Parsers, code}
use kaftar.Api.Send.{SendRoute, sms_send, serve_send}
use kaftar.Api.Effects.{IsUnsaved, serve_send-error}
use kaftar.Repo.Create.{create}
use kaftar.Repo.Model.{before_create, outbox_entity_to_model}
use kaftar.Examples.{strokes, svc, steady, noon, greeting}

-- The connection is lost while the row is committed.
abbrev down : Tx
down = record steady { write_fault = λ id. some "connection lost"; committed = λ id. true }

abbrev parsers : Parsers
parsers = record { atoi = λ s. some (pos 1); rfc3339 = λ s. none }

abbrev no_data : String → Option Bytes
no_data s = none

abbrev post : SendRoute
post = sms_send (record { bound = some greeting; query = λ name. ""; idempotency_key = "key" })

not_ok : (n : ℕ) → n ≡ 500 → n ≢ 200
not_ok n h e = omega arith

not_saved : code (serve_send svc down (Errors.ok 1) noon parsers no_data post []).0 ≢ 200
unfolding code serve_send create before_create outbox_entity_to_model strokes
not_saved = not_ok (code (serve_send svc down (Errors.ok 1) noon parsers no_data post []).0) refl

serve_send_example :
    IsUnsaved down []
      (code (serve_send svc down (Errors.ok 1) noon parsers no_data post []).0)
      (serve_send svc down (Errors.ok 1) noon parsers no_data post []).1
serve_send_example = serve_send-error svc down (Errors.ok 1) noon parsers no_data post [] not_saved
