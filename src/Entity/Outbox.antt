-- ===== src/Entity/Outbox.antt =====
-- server/internal/entity/outbox.go. A pointer to a time is an `Option`; a UUID is its 128-bit
-- value, and `uuid.Nil` is 0.
use kaftar.Prelude.{ℕ, String, Option, List, ℤ}
use kaftar.Entity.Channel.{Channel}
use kaftar.Entity.State.{OutboxState}
use kaftar.Entity.Time.{Time}

abbrev pub Uuid : Type 0
Uuid = ℕ

abbrev pub uuid_nil : Uuid
uuid_nil = 0

pub record Outbox : Type 0 where
  pub id : Uuid
  pub fingerprint : String
  pub eligible_at : Time
  pub retry_deadline : Option Time
  pub attempts : ℕ
  pub lease_token : String
  pub lease_until : Option Time
  pub dispatch_after : Option Time
  pub message_id : String
  pub channel : Channel
  pub payload : List ℕ
  pub state : OutboxState
  pub retry_count : ℕ
  pub max_retries : ℤ
  pub next_retry_at : Option Time
  pub last_error : String
  pub created_at : Option Time
  pub updated_at : Option Time
  pub sent_at : Option Time

pub record OutboxStatus : Type 0 where
  pub id : Uuid
  pub channel : Channel
  pub state : OutboxState
  pub retry_count : ℕ
  pub max_retries : ℤ
  pub next_retry_at : Option Time
  pub last_error : String
  pub sent_at : Option Time
  pub created_at : Option Time
  pub updated_at : Option Time

-- (*Outbox).Status
unfoldable pub status : Outbox → OutboxStatus
status o = record {
  id = o.id;
  channel = o.channel;
  state = o.state;
  retry_count = o.retry_count;
  max_retries = o.max_retries;
  next_retry_at = o.next_retry_at;
  last_error = o.last_error;
  sent_at = o.sent_at;
  created_at = o.created_at;
  updated_at = o.updated_at;
}

pub record OutboxFilter : Type 0 where
  pub id : String
  pub state : OutboxState
  pub channel : Channel
