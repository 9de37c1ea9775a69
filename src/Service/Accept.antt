-- ===== src/Service/Accept.antt =====
-- Acceptance in service.go: Send and accept. JSON and SHA-256 are parameters.
use kaftar.Prelude.{
  ◌==◌, ◌+◌, String, Option, none, some, List, [], ◌∷◌, Bool, true, false, ◌&&◌, ◌||◌, not, str_eq,
  if◌then◌else◌, ltb, ℤ, pos, negsuc, any,
}
use Prim.Native.String
use Prim.Native.Char.{code}
use kaftar.Entity.Time.{Time, truncate_microsecond, year_out_of_range}
use kaftar.Entity.State.{pending}
use kaftar.Entity.Channel.{Channel}
use kaftar.Entity.Outbox.{Outbox, Uuid, uuid_nil}
use kaftar.Entity.Message.{
  Bytes, Go, Message, http, channel_of, validate, unmarshal_message, effective_method,
}
use kaftar.Repo.Model.{Uuids}
use kaftar.Repo.Table.{Store, Tx}
use kaftar.Repo.Create.{create}
use kaftar.Repo.Errors
use kaftar.Service.Errors.{
  Result, ok, err, ◌>>=◌, ◌>>◌, error_of, sender_unavailable, invalid_submission, shutting_down,
  repo, submission_outcome,
}
use kaftar.Service.Retry.{normalize_max_retries}

pub record SendOptions : Type 0 where
  pub max_retries : ℤ
  pub send_at : Option Time
  pub idempotency_key : String

-- Config, as OrDefault leaves it: `none` stands for a nil configuration.
unfoldable pub or_default : Option ℤ → ℤ
or_default none = pos 0
or_default (some (pos age)) = pos age
or_default (some (negsuc n)) = pos 0

-- What the observer is told. Durations are not modelled.
pub data Observation : Type 0 where
  submission : Channel → String → Observation
  delivery_attempt : Channel → Observation
  delivery_result : Channel → String → Observation

-- The service, as far as Send and handleDelivery read it: `channels` are the keys of its map of
-- senders. The codec of the submission (canonical) and SHA-256 in hexadecimal (digest) stand with
-- the other libraries.
pub record Service : Type 0 where
  pub go : Go
  pub uuids : Uuids
  pub canonical : Bytes → ℤ → Option Time → Option Bytes
  pub digest : Bytes → String
  pub channels : List Channel
  pub retry_max_age : ℤ
  pub stopping : Bool

abbrev pub has_sender : Service → Channel → Bool
has_sender svc channel = any (λ c. str_eq c channel) svc.channels

-- The loop over the idempotency key.
unfoldable pub printable : String → Bool
printable String.[] = true
printable (String.◌∷◌ c s) = not (ltb (code c) 33 || ltb 126 (code c)) && printable s

unfoldable pub valid_key : String → Bool
unfolding printable
valid_key key = not (ltb 200 (String.len key)) && printable key

abbrev pub is_null : Bytes → Bool
is_null (n ∷ u ∷ l ∷ l' ∷ []) = n == b'n' && u == b'u' && l == b'l' && l' == b'l'
is_null _ = false

abbrev pub or_invalid {ℓ} : {A : Type ℓ} → Option A → Result A
or_invalid none = err invalid_submission
or_invalid (some a) = ok a

abbrev pub require : Bool → Result (Unit {0})
require true = ok tt
require false = err invalid_submission

-- httpMessage.Method and httpMessage.URL are normalised.
unfoldable pub normalize_http : Go → Message → Message
unfolding effective_method
normalize_http go (http m) =
    http (record m { method = effective_method go m; url = go.trim_space m.url })
normalize_http go m = m

abbrev pub require_valid : Message × Option String → Result Message
require_valid (m, none) = ok m
require_valid (m, some e) = err invalid_submission

unfoldable pub normalize_send_at : Option Time → Result (Option Time)
normalize_send_at none = ok none
normalize_send_at (some t) =
    if year_out_of_range (truncate_microsecond t)
    then err invalid_submission
    else ok (some (truncate_microsecond t))

-- The submission as it is stored and compared.
pub record Submission : Type 0 where
  pub channel : Channel
  pub payload : Bytes
  pub max_retries : ℤ
  pub send_at : Option Time
  pub key : String
  pub fingerprint : String

abbrev pub eligible_at : Option Time → Time → Time
eligible_at none now = now
eligible_at (some t) now = if ltb now t then t else now

abbrev pub first_retry_at : Option Time → Time → Option Time
first_retry_at none now = none
first_retry_at (some t) now = if ltb now t then some t else none

abbrev pub deadline : ℤ → Time → Option Time
deadline (negsuc n) eligible = none
deadline (pos age) eligible = if ltb 0 age then some (eligible + age) else none

module _ (svc : Service) where
  -- The checks of accept, up to the fingerprint.
  unfoldable pub prepare : Message → SendOptions → Result Submission
  unfolding normalize_max_retries valid_key validate normalize_http normalize_send_at
      unmarshal_message channel_of
  prepare message options = do
    let max_retries = normalize_max_retries options.max_retries
    require (valid_key options.idempotency_key)
    raw ← or_invalid (svc.go.encode message)
    require (not (is_null raw))
    decoded ← or_invalid (unmarshal_message svc.go (channel_of message) raw)
    valid ← require_valid (validate svc.go decoded)
    let normal = normalize_http svc.go valid
    payload ← or_invalid (svc.go.encode normal)
    send_at ← normalize_send_at options.send_at
    body ← or_invalid (svc.canonical payload max_retries send_at)
    ok (record {
      channel = channel_of normal;
      payload = payload;
      max_retries = max_retries;
      send_at = send_at;
      key = options.idempotency_key;
      fingerprint = svc.digest body;
    })

  -- The outbox that accept hands to the repository.
  unfoldable pub new_outbox : Submission → Time → Outbox
  new_outbox s now = record {
    id = uuid_nil;
    fingerprint = s.fingerprint;
    eligible_at = eligible_at s.send_at now;
    retry_deadline = deadline svc.retry_max_age (eligible_at s.send_at now);
    attempts = 0;
    lease_token = "";
    lease_until = none;
    dispatch_after = none;
    message_id = s.key;
    channel = s.channel;
    payload = s.payload;
    state = pending;
    retry_count = 0;
    max_retries = s.max_retries;
    next_retry_at = first_retry_at s.send_at now;
    last_error = "";
    created_at = none;
    updated_at = none;
    sent_at = none;
  }

  abbrev pub saved_id : Errors.Result Outbox → Result String
  saved_id (Errors.err e) = err (repo e)
  saved_id (Errors.ok o) = ok (svc.uuids.print o.id)

  -- `now` is time.Now, `generated` what uuid.NewV7 returns.
  unfoldable pub accept :
      Tx → Errors.Result Uuid → Time → Message → SendOptions → Store → Result String × Store
  unfolding prepare new_outbox
  accept tx generated now message options s = elim (prepare message options) [
    | err e ↦ (err e, s)
    | ok prepared ↦
        let (saved, s') = create svc.uuids tx generated (new_outbox prepared now) s in
        (saved_id saved, s')
  ]

  -- Send: its result, the table, and what the observer is told. `none` is a nil message.
  unfoldable pub send :
      Tx
      → Errors.Result Uuid
      → Time
      → Option Message
      → SendOptions
      → Store
      → Result String × Store × Observation
  unfolding accept submission_outcome
  send tx generated now none options s =
      if svc.stopping
      then (err shutting_down, s, submission "" "shutting_down")
      else (err invalid_submission, s, submission "" "invalid")
  send tx generated now (some message) options s =
      if svc.stopping
      then (err shutting_down, s, submission (channel_of message) "shutting_down")
      else if not (has_sender svc (channel_of message))
      then (err sender_unavailable, s, submission (channel_of message) "unavailable")
      else let (result, s') = accept tx generated now message options s in
        (result, s', submission (channel_of message) (submission_outcome (error_of result)))
