-- ===== src/Service/Deliver.antt =====
-- handleDelivery of service.go: one notification from the broker, from admission to settlement.
use kaftar.Prelude.{
  ◌*◌, ℕ, String, Option, none, some, List, [], ◌∷◌, Bool, true, false, not, str_eq, if◌then◌else◌,
  ◌==◌,
}
use kaftar.Entity.Time.{Time, second}
use kaftar.Entity.Channel.{Channel}
use kaftar.Entity.Outbox.{Outbox, Uuid, uuid_nil}
use kaftar.Entity.Message.{Bytes, Message, unmarshal_message}
use kaftar.Repo.Errors
use kaftar.Repo.Errors.{RepoError, record_not_found, idempotency_conflict}
use kaftar.Repo.Table.{Store, Tx}
use kaftar.Repo.Delivery.{claim, finish}
use kaftar.Service.Errors.{
  ServiceError, Result, ok, err, invalid_submission, repo, submission_outcome, delivery_outcome,
}
use kaftar.Service.Accept.{
  Service, SendOptions, Observation, submission, delivery_attempt, delivery_result, accept,
}
use kaftar.Service.Settle.{Attempt, delivered, unreadable, refused, settle}

-- How the broker is answered: Ack(false), or Nack(false, requeue).
pub data Settlement : Type 0 where
  ack : Settlement
  nack : Bool → Settlement

pub record Delivery : Type 0 where
  pub settlement : Settlement
  pub go_on : Bool
  pub store : Store
  pub observed : List Observation

-- What happens around one delivery: the decoder of envelopes, the two readings of the clock, what
-- the database does in each call, the fresh identifiers, the provider's answer and the draw of the
-- jitter.
pub record World : Type 0 where
  pub decode_envelope : Bytes → Option Outbox
  pub claimed_at : Time
  pub finished_at : Time
  pub create_tx : Tx
  pub claim_tx : Tx
  pub finish_tx : Tx
  pub generated : Errors.Result Uuid
  pub token : String
  pub provider : Message → Option String
  pub draw : ℕ

-- errors.Is(err, ErrInvalidSubmission) || errors.Is(err, repository.ErrIdempotencyConflict)
unfoldable pub is_permanent : ServiceError → Bool
is_permanent invalid_submission = true
is_permanent (repo idempotency_conflict) = true
is_permanent _ = false

abbrev pub is_unknown : RepoError → Bool
is_unknown record_not_found = true
is_unknown _ = false

abbrev pub envelope_channel : Outbox → Channel → Channel
envelope_channel envelope channel = if str_eq envelope.channel "" then channel else envelope.channel

abbrev pub envelope_options : Outbox → SendOptions
envelope_options envelope = record {
  max_retries = envelope.max_retries;
  send_at = envelope.next_retry_at;
  idempotency_key = envelope.message_id;
}

abbrev pub answer : Option String → Attempt
answer none = delivered
answer (some error) = refused error

abbrev pub lease_time : ℕ
lease_time = 60 * second

module _ (svc : Service) (world : World) where
  unfoldable pub settle_submission : Channel → Result String × Store → Delivery
  unfolding is_permanent submission_outcome
  settle_submission channel (ok id, s) = record {
    settlement = ack;
    go_on = true;
    store = s;
    observed = submission channel "accepted" ∷ [];
  }
  settle_submission channel (err e, s) = record {
    settlement = nack (not (is_permanent e));
    go_on = is_permanent e;
    store = s;
    observed = submission channel (submission_outcome (some e)) ∷ [];
  }

  -- An envelope with no ID is a submission.
  unfoldable pub deliver_direct : Channel → Outbox → Store → Delivery
  unfolding settle_submission unmarshal_message
  deliver_direct sender_channel envelope s =
      let channel = envelope_channel envelope sender_channel in
      elim (unmarshal_message svc.go channel envelope.payload) [
        | none ↦ record { settlement = nack false; go_on = true; store = s; observed = [] }
        | some message ↦ settle_submission channel (
            accept svc world.create_tx world.generated world.claimed_at message
              (envelope_options envelope) s)
      ]

  -- The provider is called with the stored payload.
  unfoldable pub attempt_send : Outbox → Attempt
  unfolding unmarshal_message
  attempt_send outbox = elim (unmarshal_message svc.go outbox.channel outbox.payload) [
    | none ↦ unreadable
    | some message ↦ answer (world.provider message)
  ]

  unfoldable pub deliver_claimed : Channel → Outbox → Store → Delivery
  unfolding attempt_send settle delivery_outcome
  deliver_claimed channel outbox s =
      let settled = settle (attempt_send outbox) world.finished_at world.draw outbox in
      let (failure, s') = finish svc.uuids world.finish_tx settled world.finished_at s in
      elim failure [
        | some e ↦ record {
          settlement = nack true;
          go_on = false;
          store = s';
          observed = delivery_attempt channel ∷ delivery_result channel "completion_error" ∷ [];
        }
        | none ↦ record {
          settlement = ack;
          go_on = true;
          store = s';
          observed =
              delivery_attempt channel
              ∷ delivery_result channel (delivery_outcome settled.state)
              ∷ [];
        }
      ]

  -- What Claim returned decides.
  unfoldable pub deliver_result : Channel → Errors.Result (Option Outbox) × Store → Delivery
  unfolding deliver_claimed
  deliver_result channel (Errors.err e, s) = record {
    settlement = nack (not (is_unknown e));
    go_on = is_unknown e;
    store = s;
    observed = [];
  }
  deliver_result channel (Errors.ok none, s) = record {
    settlement = ack;
    go_on = true;
    store = s;
    observed = [];
  }
  deliver_result channel (Errors.ok (some outbox), s) = deliver_claimed channel outbox s

  unfoldable pub deliver_notified : Channel → Uuid → Store → Delivery
  unfolding deliver_result
  deliver_notified channel id s = deliver_result channel (
      claim svc.uuids world.claim_tx (svc.uuids.print id) channel world.claimed_at lease_time
        world.token s)

  unfoldable pub handle_delivery : Channel → Bytes → Store → Delivery
  unfolding deliver_direct deliver_notified
  handle_delivery channel body s =
      if svc.stopping
      then record { settlement = nack true; go_on = false; store = s; observed = [] }
      else elim (world.decode_envelope body) [
        | none ↦ record { settlement = nack false; go_on = true; store = s; observed = [] }
        | some envelope ↦
            if envelope.id == uuid_nil
            then deliver_direct channel envelope s
            else deliver_notified channel envelope.id s
      ]
