-- ===== src/System/Complete.antt =====
-- Finish, called with a claim that the provider's answer settled, keeps what Preserve.antt lists;
-- and so does the insertion of a new row.
use kaftar.Prelude.{
  ℕ, ◌≡◌, refl, sym, ◌∙◌, String, true, false, arith, All, All-of, All-mono, inl, inr, ◌⊎◌,
  str_eq_iff,
}
use kaftar.Entity.Time.{Time}
use kaftar.Entity.State.{OutboxState, sending, failed, dead, is_sending}
use kaftar.Entity.Outbox.{Outbox}
use kaftar.Repo.Model.{Row, Uuids, outbox_entity_to_model}
use kaftar.Repo.Table.{Store, Tx, update_rows}
use kaftar.Repo.Delivery.{transition_values, finished_row, holds_lease, finish}
use kaftar.Repo.Finish.{finish_store}
use kaftar.Repo.Grows.{Grows-update_rows, All-update_rows}
use kaftar.Repo.Lifecycle.{
  Evolves, Evolves-refl, Reach, here, next, delivers, fails, gives_up, transition_values-Evolves,
}
use kaftar.Repo.Sound.{IsSound}
use kaftar.Service.Settle.{Attempt, delivered, unreadable, refused, settle, settle_failure}
use kaftar.System.Preserve.{Agrees, Preserves, Preserves-refl, Distinct-update_rows}
use kaftar.System.Dispatch.{AnyClaim}

-- What settle keeps of the claim, and the states that it leaves.
pub record Settled (o p : Outbox) : Type 0 where
  pub id : p.id ≡ o.id
  pub attempts : p.attempts ≡ o.attempts
  pub retry_count : p.retry_count ≡ o.retry_count
  pub lease_token : p.lease_token ≡ o.lease_token
  pub reach : Reach sending p.state
  pub ended : is_sending p.state ≡ false

ended_state :
    (e : String) (now : Time) (draw : ℕ) (o : Outbox)
    → ((settle_failure e now draw o).state ≡ dead) ⊎ ((settle_failure e now draw o).state ≡ failed)
unfolding settle_failure
ended_state e now draw o = ground arith

Reach-ended : (s : OutboxState) → (s ≡ dead) ⊎ (s ≡ failed) → Reach sending s
Reach-ended s (inl e) = rw e (next gives_up here)
Reach-ended s (inr e) = rw e (next fails here)

Settled-failure :
    (e : String) (now : Time) (draw : ℕ) (o : Outbox) → Settled o (settle_failure e now draw o)
unfolding settle_failure
Settled-failure e now draw o = record {
  id = ground arith;
  attempts = ground arith;
  retry_count = ground arith;
  lease_token = ground arith;
  reach = Reach-ended _ (ended_state e now draw o);
  ended = ground arith;
}

pub settle-Settled :
    (a : Attempt) (now : Time) (draw : ℕ) (o : Outbox) → Settled o (settle a now draw o)
unfolding settle
settle-Settled delivered now draw o = record {
  id = refl;
  attempts = refl;
  retry_count = refl;
  lease_token = refl;
  reach = next delivers here;
  ended = refl;
}
settle-Settled unreadable now draw o = Settled-failure "invalid stored message" now draw o
settle-Settled (refused e) now draw o = Settled-failure e now draw o

module _ (uuids : Uuids) (tx : Tx) (now : Time) (o p : Outbox) (st : Settled o p) where
  pub sending_of : (r : Row) → holds_lease uuids p now r ≡ true → is_sending r.state ≡ true
  unfolding holds_lease
  sending_of r h = ground arith

  pub token_of : (r : Row) → holds_lease uuids p now r ≡ true → r.lease_token ≡ o.lease_token
  unfolding holds_lease
  token_of r h = (str_eq_iff r.lease_token p.lease_token).0 (ground arith) ∙ st.lease_token

  state_of : (s : OutboxState) → is_sending s ≡ true → s ≡ sending
  state_of sending h = refl
  state_of _ h = cc

  finished_state : (finished_row uuids p now).state ≡ p.state
  unfolding finished_row outbox_entity_to_model
  finished_state = ground arith

  finished_attempts : (finished_row uuids p now).attempts ≡ p.attempts
  unfolding finished_row outbox_entity_to_model
  finished_attempts = ground arith

  finished-Evolves :
      (r : Row)
      → Agrees o r
      → holds_lease uuids p now r ≡ true
      → Evolves r (transition_values (finished_row uuids p now) tx.clock r)
  finished-Evolves r a h =
      transition_values-Evolves (finished_row uuids p now) r tx.clock
        (rw (state_of r.state (sending_of r h)))
        (let e = (a (sending_of r h) (token_of r h)).0 in
          unfold finished_row outbox_entity_to_model in ground (arith, st.attempts))
        (rw (state_of r.state (sending_of r h)) (rw (finished_state) st.reach))

  finished-IsSound :
      (r : Row)
      → Agrees o r
      → holds_lease uuids p now r ≡ true
      → IsSound r
      → IsSound (transition_values (finished_row uuids p now) tx.clock r)
  unfolding transition_values finished_row outbox_entity_to_model
  finished-IsSound r a h v =
      let e = (a (sending_of r h) (token_of r h)).0 in
      record {
        budget = rw (finished_attempts ∙ st.attempts ∙ sym e) v.budget;
        counted = λ k. ground (arith, st.ended);
        leased = λ k. ground (arith, st.ended);
        released = λ k. ground (arith, st.ended);
        delivered = λ k. ground (arith, st.ended);
        buried = λ k. ground (arith, st.ended);
      }

  abbrev write : Row → Row
  write = transition_values (finished_row uuids p now) tx.clock

  id-write : (r : Row) → (write r).id ≡ r.id
  unfolding transition_values
  id-write r = refl

  written_unleased : (c : Outbox) (r : Row) → Agrees c (write r)
  unfolding transition_values
  written_unleased c r live = cc (finished_state, st.ended, live)

  completed-Preserves :
      (s : Store)
      → All (Agrees o) s
      → Preserves AnyClaim s (update_rows (holds_lease uuids p now) write s)
  completed-Preserves s agreed = record {
    distinct = Distinct-update_rows (holds_lease uuids p now) write id-write s;
    evolves =
        Grows-update_rows Evolves (holds_lease uuids p now) write Evolves-refl s
          (All-mono (λ r a. finished-Evolves r a) s agreed);
    sound =
        All-update_rows IsSound IsSound (holds_lease uuids p now) write s (All-of _ (λ r v. v) s)
          (All-mono (λ r a. finished-IsSound r a) s agreed);
    agree = λ c k.
        All-update_rows (Agrees c) (Agrees c) (holds_lease uuids p now) write s
          (All-of _ (λ r v. v) s) (All-of _ (λ r h a. written_unleased c r) s);
  }

  pub finish-Preserves :
      (s : Store) → All (Agrees o) s → Preserves AnyClaim s (finish uuids tx p now s).1
  finish-Preserves s agreed =
      finish_store uuids tx p now s (Preserves AnyClaim s) (Preserves-refl AnyClaim s)
        (completed-Preserves s agreed)
