-- ===== src/Api/Send.antt =====
-- The five handlers that submit a message (sms.go, email.go, mattermost.go, bale.go, http.go in
-- server/internal/api/http/handler), and Register, which routes to them.
use kaftar.Prelude.{String, Option, some, ℤ}
use kaftar.Entity.Time.{Time}
use kaftar.Entity.Outbox.{Uuid}
use kaftar.Entity.Message.{Bytes, Message, sms, email, mattermost, bale, http}
use kaftar.Repo.Errors
use kaftar.Repo.Table.{Store, Tx}
use kaftar.Service.Errors.{Result, ok, err}
use kaftar.Service.Accept.{Service, SendOptions, send}
use kaftar.Api.Dto.{
  SmsDto, EmailDto, MattermostDto, BaleDto, HttpDto, sms_to_entity, email_to_entity,
  mattermost_to_entity, bale_to_entity, http_to_entity,
}
use kaftar.Api.Reply.{
  Reply, accepted, submission_error, Parsers, Request, Step, go, stop, ◌>>=◌, or_bad_request,
  parse_query_param_int, parse_query_param_time,
}

abbrev pub options_of : {D : Type 0} → Request D → ℤ → Option Time → SendOptions
options_of r max_retries send_at = record {
  max_retries = max_retries;
  send_at = send_at;
  idempotency_key = r.idempotency_key;
}

-- Each handler up to its call of Send.
module _ (parsers : Parsers) (decode : String → Option Bytes) where
  unfoldable pub send_sms : Request SmsDto → Step (Message × SendOptions)
  unfolding parse_query_param_int parse_query_param_time sms_to_entity
  send_sms r = do
    req ← or_bad_request "Failed to bind SMS message" r.bound
    max_retries ←
        or_bad_request "Failed to parse query param"
          (parse_query_param_int parsers (r.query "max_retries"))
    send_at ←
        or_bad_request "Failed to parse send_at; must be RFC3339"
          (parse_query_param_time parsers (r.query "send_at"))
    go (sms (sms_to_entity req), options_of r max_retries send_at)

  unfoldable pub send_http : Request HttpDto → Step (Message × SendOptions)
  unfolding parse_query_param_int parse_query_param_time http_to_entity
  send_http r = do
    req ← or_bad_request "Invalid request payload" r.bound
    max_retries ←
        or_bad_request "Failed to parse query param"
          (parse_query_param_int parsers (r.query "max_retries"))
    send_at ←
        or_bad_request "Failed to parse send_at; must be RFC3339"
          (parse_query_param_time parsers (r.query "send_at"))
    go (http (http_to_entity req), options_of r max_retries send_at)

  unfoldable pub send_email : Request EmailDto → Step (Message × SendOptions)
  unfolding parse_query_param_int parse_query_param_time email_to_entity
  send_email r = do
    req ← or_bad_request "Invalid request payload" r.bound
    max_retries ←
        or_bad_request "Failed to parse query param"
          (parse_query_param_int parsers (r.query "max_retries"))
    send_at ←
        or_bad_request "Failed to parse send_at; must be RFC3339"
          (parse_query_param_time parsers (r.query "send_at"))
    entity ← or_bad_request "Failed to process attachments" (email_to_entity decode req)
    go (email entity, options_of r max_retries send_at)

  unfoldable pub send_mattermost : Request MattermostDto → Step (Message × SendOptions)
  unfolding parse_query_param_int parse_query_param_time mattermost_to_entity
  send_mattermost r = do
    req ← or_bad_request "Invalid request payload" r.bound
    max_retries ←
        or_bad_request "Failed to parse query param"
          (parse_query_param_int parsers (r.query "max_retries"))
    send_at ←
        or_bad_request "Failed to parse send_at; must be RFC3339"
          (parse_query_param_time parsers (r.query "send_at"))
    entity ← or_bad_request "Failed to process attachments" (mattermost_to_entity decode req)
    go (mattermost entity, options_of r max_retries send_at)

  unfoldable pub send_bale : Request BaleDto → Step (Message × SendOptions)
  unfolding parse_query_param_int parse_query_param_time bale_to_entity
  send_bale r = do
    req ← or_bad_request "Invalid request payload" r.bound
    max_retries ←
        or_bad_request "Failed to parse query param"
          (parse_query_param_int parsers (r.query "max_retries"))
    send_at ←
        or_bad_request "Failed to parse send_at; must be RFC3339"
          (parse_query_param_time parsers (r.query "send_at"))
    entity ← or_bad_request "Failed to process attachments" (bale_to_entity decode req)
    go (bale entity, options_of r max_retries send_at)

-- The POST routes of Register.
pub data SendRoute : Type 0 where
  sms_send : Request SmsDto → SendRoute
  email_send : Request EmailDto → SendRoute
  mattermost_send : Request MattermostDto → SendRoute
  bale_send : Request BaleDto → SendRoute
  http_send : Request HttpDto → SendRoute

-- The rest of each handler: the reply for what Send returned.
unfoldable pub reply_sent : Result String → Reply
unfolding submission_error
reply_sent (ok id) = accepted id
reply_sent (err e) = submission_error e

module _ (parsers : Parsers) (decode : String → Option Bytes) where
  unfoldable pub route : SendRoute → Step (Message × SendOptions)
  unfolding send_sms send_email send_mattermost send_bale send_http
  route (sms_send r) = send_sms parsers decode r
  route (email_send r) = send_email parsers decode r
  route (mattermost_send r) = send_mattermost parsers decode r
  route (bale_send r) = send_bale parsers decode r
  route (http_send r) = send_http parsers decode r

module _ (svc : Service) (tx : Tx) (generated : Errors.Result Uuid) (now : Time) where
  unfoldable pub submit : Step (Message × SendOptions) → Store → Reply × Store
  unfolding send reply_sent
  submit (stop reply) s = (reply, s)
  submit (go (message, options)) s =
      let (result, s', observed) = send svc tx generated now (some message) options s in
      (reply_sent result, s')

  -- A POST request, from its body to the reply and the table after it.
  unfoldable pub serve_send : Parsers → (String → Option Bytes) → SendRoute → Store → Reply × Store
  unfolding route submit
  serve_send parsers decode r s = submit (route parsers decode r) s
