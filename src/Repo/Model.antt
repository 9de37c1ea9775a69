-- ===== src/Repo/Model.antt =====
-- server/internal/repository/model: the table's row, and its conversions from and to the entity.
-- The UUID library is a parameter: it parses texts and prints values.
use kaftar.Prelude.{
  ℕ, String, Option, none, some, List, Bool, true, ℤ, eqb_ℤ, ◌≡◌, ◌&&◌, not, str_eq, if◌then◌else◌,
}
use kaftar.Entity.Time.{Time, time_zero}
use kaftar.Entity.Channel.{Channel}
use kaftar.Entity.State.{OutboxState}
use kaftar.Entity.Outbox.{Outbox, OutboxFilter, Uuid, uuid_nil}
use kaftar.Entity.Channel
use kaftar.Entity.State
use kaftar.Repo.Errors.{Result, ok, err}

-- model.Outbox, with the fields of TimeModel.
pub record Row : Type 0 where
  pub created_at : Time
  pub updated_at : Time
  pub deleted_at : Option Time
  pub id : String
  pub message_id : String
  pub channel : String
  pub payload : List ℕ
  pub fingerprint : String
  pub eligible_at : Time
  pub retry_deadline : Option Time
  pub attempts : ℕ
  pub lease_token : String
  pub lease_until : Option Time
  pub dispatch_after : Option Time
  pub state : OutboxState
  pub retry_count : ℕ
  pub max_retries : ℤ
  pub next_retry_at : Option Time
  pub last_error : String
  pub sent_at : Option Time

-- github.com/google/uuid: uuid.Parse and UUID.String.
pub record Uuids : Type 0 where
  pub parse : String → Option Uuid
  pub print : Uuid → String

-- What the code relies on: a printed UUID parses to itself.
pub record UuidLaws (u : Uuids) : Type 0 where
  pub parse_print : (n : Uuid) → u.parse (u.print n) ≡ some n

abbrev or_nil : Option Uuid → Uuid
or_nil none = uuid_nil
or_nil (some id) = id

module _ (uuids : Uuids) where
  -- The fields that the literal leaves out have their zero values.
  unfoldable pub outbox_entity_to_model : Outbox → Row
  outbox_entity_to_model o = record {
    created_at = time_zero;
    updated_at = time_zero;
    deleted_at = none;
    id = uuids.print o.id;
    message_id = o.message_id;
    channel = o.channel;
    payload = o.payload;
    fingerprint = o.fingerprint;
    eligible_at = o.eligible_at;
    retry_deadline = o.retry_deadline;
    attempts = o.attempts;
    lease_token = o.lease_token;
    lease_until = o.lease_until;
    dispatch_after = o.dispatch_after;
    state = o.state;
    retry_count = o.retry_count;
    max_retries = o.max_retries;
    next_retry_at = o.next_retry_at;
    last_error = o.last_error;
    sent_at = o.sent_at;
  }

  unfoldable pub outbox_model_to_entity : Row → Outbox
  outbox_model_to_entity r = record {
    id = or_nil (uuids.parse r.id);
    fingerprint = r.fingerprint;
    eligible_at = r.eligible_at;
    retry_deadline = r.retry_deadline;
    attempts = r.attempts;
    lease_token = r.lease_token;
    lease_until = r.lease_until;
    dispatch_after = r.dispatch_after;
    message_id = r.message_id;
    channel = r.channel;
    payload = r.payload;
    state = r.state;
    retry_count = r.retry_count;
    max_retries = r.max_retries;
    next_retry_at = r.next_retry_at;
    last_error = r.last_error;
    created_at = some r.created_at;
    updated_at = some r.updated_at;
    sent_at = r.sent_at;
  }

  -- (*Outbox).BeforeCreate; `generated` is what uuid.NewV7 returns.
  unfoldable pub before_create : Result Uuid → Row → Result Row
  before_create generated r =
      if not (str_eq r.id "") && not (str_eq r.id (uuids.print uuid_nil))
      then ok r
      else elim generated [ ok id ↦ ok (record r { id = uuids.print id }) | err e ↦ err e ]

unfoldable pub same_state : OutboxState → OutboxState → Bool
unfolding State.to_int
same_state a b = eqb_ℤ (State.to_int a) (State.to_int b)

-- (*OutboxFilter).Query: the conditions that the filter adds.
unfoldable pub matches_filter : OutboxFilter → Row → Bool
unfolding Channel.is_valid State.is_valid State.to_int
matches_filter f r =
    (if str_eq f.id "" then true else str_eq r.id f.id)
    && (if State.is_valid f.state then same_state f.state r.state else true)
    && (if Channel.is_valid f.channel then str_eq r.channel f.channel else true)
