-- ===== src/Repo/Delivery.antt =====
-- server/internal/repository/outbox_repo/delivery.go: ReserveDispatch, Claim and Finish. A call that
-- fails leaves the table as it was: its transaction is rolled back.
use kaftar.Prelude.{
  ℕ, ◌+◌, ◌-◌, String, Option, none, some, List, [], ◌∷◌, Bool, true, false, ◌&&◌, ◌||◌, not,
  str_eq, if◌then◌else◌, leb, ltb, take, ◌==◌, ℤ, pos, negsuc, length,
}
use kaftar.Entity.Time.{Time, before, reached}
use kaftar.Entity.State.{
  OutboxState, sending, failed, dead, is_pending, is_sending, is_failed, is_sent, is_dead,
}
use kaftar.Entity.Channel.{Channel}
use kaftar.Entity.Outbox.{Outbox}
use kaftar.Repo.Errors.{RepoError, Result, ok, err, record_not_found, lease_lost, database}
use kaftar.Repo.Model.{Row, Uuids, outbox_entity_to_model, outbox_model_to_entity}
use kaftar.Repo.Table.{Store, Tx, select_rows, update_rows, lock_rows, order_by, head_row}
use kaftar.Repo.Create.{id_le}

-- row.MaxRetries >= 0 && row.Attempts > row.MaxRetries
abbrev pub over_budget : ℤ → ℕ → Bool
over_budget (pos m) attempts = ltb m attempts
over_budget (negsuc m) attempts = false

unfoldable pub exhausted : Row → Time → Bool
exhausted row now = over_budget row.max_retries row.attempts || reached row.retry_deadline now

-- The columns of transitionValues, written over a row; gorm stamps `updated_at`.
unfoldable pub transition_values : Row → Time → Row → Row
transition_values row clock r = record r {
  updated_at = clock;
  state = row.state;
  attempts = row.attempts;
  retry_count = row.retry_count;
  lease_token = row.lease_token;
  lease_until = row.lease_until;
  dispatch_after = row.dispatch_after;
  next_retry_at = row.next_retry_at;
  last_error = row.last_error;
  sent_at = row.sent_at;
}

unfoldable pub make_dead : Row → Row
make_dead row = record row {
  state = dead;
  lease_token = "";
  lease_until = none;
  next_retry_at = none;
  dispatch_after = none;
  last_error = "delivery retry budget or age exhausted";
}

-- "t IS NULL OR t <= now"
abbrev pub null_or_past : Option Time → Time → Bool
null_or_past none now = true
null_or_past (some t) now = leb t now

abbrev pub is_open : OutboxState → Bool
is_open state = is_pending state || is_failed state

unfoldable pub is_due : Channel → Time → Row → Bool
is_due channel now r =
    str_eq r.channel channel
    && (is_open r.state && null_or_past r.next_retry_at now && null_or_past r.dispatch_after now
        || is_sending r.state && null_or_past r.lease_until now)

-- "created_at, id"
unfoldable pub oldest_first : Row → Row → Bool
oldest_first a b = ltb a.created_at b.created_at || a.created_at == b.created_at && id_le a b

-- A row whose lease ran out goes back to be retried now.
unfoldable pub recover : Time → Row → Row
recover now row =
    if is_sending row.state
    then record row {
      state = failed;
      last_error = "previous delivery outcome unknown";
      lease_token = "";
      lease_until = none;
      next_retry_at = some now;
    }
    else row

-- One round of the loop: the row to write, and whether it is dispatched.
unfoldable pub reserve_row : Time → ℕ → Row → Row × Bool
unfolding exhausted make_dead recover
reserve_row now interval row =
    if exhausted row now
    then (make_dead row, false)
    else (record (recover now row) { dispatch_after = some (now + interval) }, true)

-- transaction.Model(…).Where("id = ?", row.ID).Updates(transitionValues(row))
unfoldable pub write_row : Tx → Row → Store → Store
unfolding update_rows transition_values
write_row tx row = update_rows (λ r. str_eq r.id row.id) (transition_values row tx.clock)

-- row.Attempts++ and row.RetryCount = row.Attempts - 1
unfoldable pub take_lease : Time → ℕ → String → Row → Row
take_lease now lease token row = record row {
  state = sending;
  attempts = row.attempts + 1;
  retry_count = row.attempts + 1 - 1;
  lease_token = token;
  lease_until = some (now + lease);
}

-- next_retry_at != nil && now.Before(*next_retry_at)
abbrev pub is_early : Option Time → Time → Bool
is_early none now = false
is_early (some t) now = before now t

-- "id = ? AND channel = ?"
abbrev pub is_notified : String → Channel → Row → Bool
is_notified id channel r = str_eq r.id id && str_eq r.channel channel

-- "lease_until > ?"
abbrev pub is_leased : Option Time → Time → Bool
is_leased none now = false
is_leased (some t) now = ltb now t

-- Commit, or roll back.
abbrev pub finish_transaction : Tx → Store → Result Store → Option RepoError × Store
finish_transaction tx s (err e) = (some e, s)
finish_transaction tx s (ok s') = elim tx.commit_fault [
  | some e ↦ (some (database e), s)
  | none ↦ (none, s')
]

module _ (uuids : Uuids) where
  unfoldable pub finished_row : Outbox → Time → Row
  finished_row outbox now =
      let row = record (outbox_entity_to_model uuids outbox) {
        lease_token = "";
        lease_until = none;
        dispatch_after = none;
      } in
      if is_sent outbox.state
      then record row { sent_at = some now; next_retry_at = none; last_error = "" }
      else if is_dead outbox.state
      then record row { next_retry_at = none }
      else row

  -- "id = ? AND state = ? AND lease_token = ? AND lease_until > ?"
  unfoldable pub holds_lease : Outbox → Time → Row → Bool
  holds_lease outbox now r =
      str_eq r.id (uuids.print outbox.id)
      && is_sending r.state
      && str_eq r.lease_token outbox.lease_token
      && is_leased r.lease_until now

module _ (uuids : Uuids) (tx : Tx) where
  unfoldable pub reserve_rows : Time → ℕ → List Row → Store → List Outbox × Result Store
  unfolding reserve_row write_row
  reserve_rows now interval [] s = ([], ok s)
  reserve_rows now interval (row ∷ rows) s =
      let (row', dispatched) = reserve_row now interval row in
      let rest = reserve_rows now interval rows (write_row tx row' s) in
      let kept =
        λ (os : List Outbox). if dispatched then outbox_model_to_entity uuids row' ∷ os else os in
      elim (tx.write_fault row.id) [
        | some e ↦ (kept [], err (database e))
        | none ↦ (kept rest.0, rest.1)
      ]

  -- The rows that the query of ReserveDispatch finds.
  unfoldable pub due_rows : Channel → Time → ℕ → Store → List Row
  unfolding select_rows lock_rows order_by is_due oldest_first
  due_rows channel now limit s =
      take limit (order_by oldest_first (lock_rows tx (select_rows (is_due channel now) s)))

  unfoldable pub reserve_dispatch :
      Channel → Time → ℕ → ℕ → Store → (List Outbox × Option RepoError) × Store
  unfolding due_rows reserve_rows
  reserve_dispatch channel now interval limit s = elim tx.read_fault [
    | some e ↦ (([], some (database e)), s)
    | none ↦
        let (result, outcome) = reserve_rows now interval (due_rows channel now limit s) s in
        let (e, s') = finish_transaction tx s outcome in ((result, e), s')
  ]

  -- The write that ends Claim's transaction, and its commit.
  unfoldable pub commit_claim : Row → Option Outbox → Store → Result (Option Outbox) × Store
  unfolding write_row
  commit_claim row result s = elim (tx.write_fault row.id) [
    | some e ↦ (err (database e), s)
    | none ↦ elim tx.commit_fault [
      | some e ↦ (err (database e), s)
      | none ↦ (ok result, write_row tx row s)
    ]
  ]

  unfoldable pub claim_row : Time → ℕ → String → Row → Store → Result (Option Outbox) × Store
  unfolding commit_claim exhausted make_dead take_lease
  claim_row now lease token row s =
      if not (is_open row.state)
      then (ok none, s)
      else if is_early row.next_retry_at now
      then (ok none, s)
      else if exhausted row now
      then commit_claim (make_dead row) none s
      else commit_claim (take_lease now lease token row)
          (some (outbox_model_to_entity uuids (take_lease now lease token row))) s

  -- Claim; `token` is what uuid.NewString returns.
  unfoldable pub claim :
      String → Channel → Time → ℕ → String → Store → Result (Option Outbox) × Store
  unfolding claim_row select_rows lock_rows
  claim id channel now lease token s = elim tx.read_fault [
    | some e ↦ (err (database e), s)
    | none ↦ elim (head_row (lock_rows tx (select_rows (is_notified id channel) s))) [
      | none ↦ (err record_not_found, s)
      | some row ↦ claim_row now lease token row s
    ]
  ]

  unfoldable pub finish : Outbox → Time → Store → Option RepoError × Store
  unfolding finished_row holds_lease select_rows update_rows transition_values
  finish outbox now s = elim (tx.write_fault (uuids.print outbox.id)) [
    | some e ↦ (some (database e), s)
    | none ↦
        let s' =
          update_rows (holds_lease uuids outbox now)
            (transition_values (finished_row uuids outbox now) tx.clock) s in
        if length (select_rows (holds_lease uuids outbox now) s) == 1
        then (none, s')
        else (some lease_lost, s')
  ]
