-- ===== src/Repo/Lifecycle.antt =====
-- The life of one row: the states that a write of delivery.go can take it through, and what no
-- write changes.
use kaftar.Prelude.{◌≤◌, ◌≡◌, refl, ◌∙◌, String, Bool, true, false, arith}
use kaftar.Entity.Time.{Time}
use kaftar.Entity.State.{OutboxState, pending, sending, failed, sent, dead}
use kaftar.Repo.Model.{Row}
use kaftar.Repo.Delivery.{transition_values, is_open, is_due}

pub data Edge : OutboxState → OutboxState → Type 0 where
  claims_pending : Edge pending sending
  claims_failed : Edge failed sending
  delivers : Edge sending sent
  fails : Edge sending failed
  expires_pending : Edge pending dead
  expires_failed : Edge failed dead
  gives_up : Edge sending dead

pub data Reach : OutboxState → OutboxState → Type 0 where
  here : {s : OutboxState} → Reach s s
  next : {s t u : OutboxState} → Edge s t → Reach t u → Reach s u

pub ruleset edges =
    (claims_pending, claims_failed, delivers, fails, expires_pending, expires_failed, gives_up)

pub Reach-trans : {s t u : OutboxState} → Reach s t → Reach t u → Reach s u
Reach-trans here q = q
Reach-trans (next e p) q = next e (Reach-trans p q)

abbrev pub is_terminal : OutboxState → Bool
is_terminal sent = true
is_terminal dead = true
is_terminal _ = false

-- What the table's history preserves of a row: who it is, what it carries and its limits; its
-- attempts are never forgotten; its state moves along edges, and a terminal row does not change.
pub record Evolves (r r' : Row) : Type 0 where
  pub id : r'.id ≡ r.id
  pub message_id : r'.message_id ≡ r.message_id
  pub channel : r'.channel ≡ r.channel
  pub payload : r'.payload ≡ r.payload
  pub fingerprint : r'.fingerprint ≡ r.fingerprint
  pub eligible_at : r'.eligible_at ≡ r.eligible_at
  pub retry_deadline : r'.retry_deadline ≡ r.retry_deadline
  pub max_retries : r'.max_retries ≡ r.max_retries
  pub created_at : r'.created_at ≡ r.created_at
  pub attempts : r.attempts ≤ r'.attempts
  pub moves : Reach r.state r'.state
  pub settled : is_terminal r.state ≡ true → r' ≡ r

pub Evolves-refl : (r : Row) → Evolves r r
Evolves-refl r = record {
  id = refl;
  message_id = refl;
  channel = refl;
  payload = refl;
  fingerprint = refl;
  eligible_at = refl;
  retry_deadline = refl;
  max_retries = refl;
  created_at = refl;
  attempts = omega arith;
  moves = here;
  settled = λ _. refl;
}

pub Evolves-trans : (r s t : Row) → Evolves r s → Evolves s t → Evolves r t
Evolves-trans r s t p q = record {
  id = q.id ∙ p.id;
  message_id = q.message_id ∙ p.message_id;
  channel = q.channel ∙ p.channel;
  payload = q.payload ∙ p.payload;
  fingerprint = q.fingerprint ∙ p.fingerprint;
  eligible_at = q.eligible_at ∙ p.eligible_at;
  retry_deadline = q.retry_deadline ∙ p.retry_deadline;
  max_retries = q.max_retries ∙ p.max_retries;
  created_at = q.created_at ∙ p.created_at;
  attempts = omega arith;
  moves = Reach-trans p.moves q.moves;
  settled = λ h. q.settled (rw (p.settled h) h) ∙ p.settled h;
}

-- A write by transition_values evolves a row whose state is not terminal, if the written state can
-- be reached and the written attempts are no fewer.
pub transition_values-Evolves :
    (v r : Row) (clock : Time)
    → is_terminal r.state ≡ false
    → r.attempts ≤ v.attempts
    → Reach r.state v.state
    → Evolves r (transition_values v clock r)
unfolding transition_values
transition_values-Evolves v r clock live more way = record {
  id = refl;
  message_id = refl;
  channel = refl;
  payload = refl;
  fingerprint = refl;
  eligible_at = refl;
  retry_deadline = refl;
  max_retries = refl;
  created_at = refl;
  attempts = more;
  moves = way;
  settled = λ h. cc;
}

-- A due row is in one of three states.
pub is_due-live :
    (c : String) (now : Time) (r : Row) → is_due c now r ≡ true → is_terminal r.state ≡ false
unfolding is_due
is_due-live c now r h = ground arith

pub dead-Reach : (s : OutboxState) → is_open s ≡ true → Reach s dead
dead-Reach pending h = next expires_pending here
dead-Reach failed h = next expires_failed here
dead-Reach _ h = cc

pub sending-Reach : (s : OutboxState) → is_open s ≡ true → Reach s sending
sending-Reach pending h = next claims_pending here
sending-Reach failed h = next claims_failed here
sending-Reach _ h = cc
