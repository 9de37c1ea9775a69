-- ===== src/Api/Status.antt =====
-- The five handlers that answer for a message's status, and Register, which routes to them.
use kaftar.Prelude.{String, Option, none, some, str_eq, if◌then◌else◌}
use kaftar.Repo.Errors.{Result, ok, err}
use kaftar.Repo.Model.{Uuids}
use kaftar.Repo.Table.{Store, Tx}
use kaftar.Entity.Outbox.{OutboxStatus}
use kaftar.Service.Workers.{service_status}
use kaftar.Api.Dto.{new_message_status}
use kaftar.Api.Reply.{Reply, error, found, status_error}

module _ (uuids : Uuids) (tx : Tx) where
  -- What Status returned, under the handler's message for errors.
  unfoldable pub reply_status : String → Result OutboxStatus → Reply
  unfolding new_message_status status_error
  reply_status message (ok s) = found (new_message_status uuids s)
  reply_status message (err e) = status_error message e

  -- A handler that refuses an empty ID.
  unfoldable pub reply_named : String → String → String → Store → Reply
  unfolding reply_status service_status
  reply_named missing message id s =
      if str_eq id ""
      then error 400 missing
      else reply_status message (service_status uuids tx id s)

  -- Each takes the ID that the binder found, or none where it failed.
  unfoldable pub status_sms : Option String → Store → Reply
  unfolding reply_status service_status
  status_sms none s = error 400 "Failed to bind SMS status request"
  status_sms (some id) s = reply_status "Failed to get SMS status" (service_status uuids tx id s)

  unfoldable pub status_email : Option String → Store → Reply
  unfolding reply_named
  status_email none s = error 400 "Invalid request parameters"
  status_email (some id) s = reply_named "Email ID is required" "Failed to get email status" id s

  unfoldable pub status_mattermost : Option String → Store → Reply
  unfolding reply_named
  status_mattermost none s = error 400 "Invalid request parameters"
  status_mattermost (some id) s =
      reply_named "Mattermost message ID is required" "Failed to get Mattermost message status" id s

  unfoldable pub status_bale : Option String → Store → Reply
  unfolding reply_named
  status_bale none s = error 400 "Invalid request parameters"
  status_bale (some id) s =
      reply_named "Message ID is required" "Failed to get Bale message status" id s

  unfoldable pub status_http : Option String → Store → Reply
  unfolding reply_named
  status_http none s = error 400 "Invalid request parameters"
  status_http (some id) s =
      reply_named "HTTP request ID is required" "Failed to get HTTP request status" id s
