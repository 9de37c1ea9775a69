-- ===== src/Repo/Create.antt =====
-- server/internal/repository/outbox_repo/repo.go: Create, Get, Update and Delete. A call takes what
-- the database does (`Tx`) and the table, and returns its result and the table after it.
use kaftar.Prelude.{
  ℕ, String, Option, none, some, List, [], ◌∷◌, ◌++◌, map, Bool, true, false, ◌&&◌, ◌||◌, not,
  str_eq, if◌then◌else◌, any, ◌==◌, ℤ, pos, eqb_ℤ,
}
use Prim.Native.String.{compare}
use Prim.Native.Nat.{Ordering}
use kaftar.Entity.Time.{Time, time_zero}
use kaftar.Entity.State
use kaftar.Entity.State.{OutboxState}
use kaftar.Entity.Outbox.{Outbox, OutboxFilter, Uuid}
use kaftar.Repo.Errors.{
  RepoError, Result, ok, err, ◌>>=◌, gorm_not_found, record_not_found, idempotency_conflict,
}
use kaftar.Repo.Model.{
  Row, Uuids, outbox_entity_to_model, outbox_model_to_entity, before_create, matches_filter,
}
use kaftar.Repo.Table.{Store, Tx, select_rows, update_rows, order_by, attempt}

abbrev pub id_le : Row → Row → Bool
id_le a b = elim (compare a.id b.id) [ Ordering.gt ↦ false | _ ↦ true ]

-- What the primary key and the partial unique index on (channel, message_id) refuse. An index
-- covers the rows that are marked as deleted too.
unfoldable pub conflicts : Row → Row → Bool
conflicts row r =
    str_eq r.id row.id
    || not (str_eq row.message_id "")
      && str_eq r.channel row.channel
      && str_eq r.message_id row.message_id

-- gorm stamps a new row.
abbrev pub stamp : Time → Row → Row
stamp clock row = record row { created_at = clock; updated_at = clock }

-- "channel = ? AND message_id = ?"
abbrev pub has_key : Row → Row → Bool
has_key row r = str_eq r.channel row.channel && str_eq r.message_id row.message_id

-- First
abbrev pub first_row : List Row → Result Row
first_row [] = err gorm_not_found
first_row (r ∷ rs) = ok r

module _ (uuids : Uuids) where
  -- An existing row answers for a submission with its key and its content.
  unfoldable pub answer_existing : Row → Row → Result Outbox
  answer_existing outbox existing =
      if str_eq outbox.message_id ""
        || str_eq existing.fingerprint ""
        || not (str_eq existing.fingerprint outbox.fingerprint)
      then err idempotency_conflict
      else ok (outbox_model_to_entity uuids existing)

module _ (uuids : Uuids) (tx : Tx) where
  -- The answer to a submission whose row was not inserted.
  unfoldable pub resolve_existing : Row → Store → Result Outbox
  unfolding select_rows order_by answer_existing
  resolve_existing outbox s = do
    rows ← attempt tx.read_fault (order_by id_le (select_rows (has_key outbox) s))
    existing ← first_row rows
    answer_existing uuids outbox existing

  -- The table after an insertion that failed: an interrupted one may have been committed.
  unfoldable pub after_fault : Row → Store → Store
  unfolding conflicts any
  after_fault row s =
      if tx.committed row.id && not (any (conflicts row) s) then s ++ stamp tx.clock row ∷ [] else s

  -- INSERT … ON CONFLICT DO NOTHING, and what follows it.
  unfoldable pub insert_row : Row → Store → Result Outbox × Store
  unfolding conflicts resolve_existing after_fault
  insert_row row s = elim (tx.write_fault row.id) [
    | some e ↦ (err (RepoError.database e), after_fault row s)
    | none ↦
        if any (conflicts row) s
        then (resolve_existing row s, s)
        else (ok (outbox_model_to_entity uuids (stamp tx.clock row)), s ++ stamp tx.clock row ∷ [])
  ]

  unfoldable pub create : Result Uuid → Outbox → Store → Result Outbox × Store
  unfolding insert_row
  create generated o s = elim (before_create uuids generated (outbox_entity_to_model uuids o)) [
    | err e ↦ (err e, s)
    | ok row ↦ insert_row row s
  ]

  -- Get, with fp.Mapper.
  unfoldable pub get : OutboxFilter → Store → Result (List Outbox)
  unfolding select_rows matches_filter
  get f s = do
    rows ← attempt tx.read_fault (select_rows (matches_filter f) s)
    elim rows [
      | [] ↦ err record_not_found
      | r ∷ rs ↦ ok (map (outbox_model_to_entity uuids) (r ∷ rs))
    ]

  -- Delete only marks the row.
  unfoldable pub delete : String → Store → Result (Unit {0}) × Store
  unfolding update_rows
  delete id s = elim (tx.write_fault id) [
    | some e ↦ (err (RepoError.database e), s)
    | none ↦
        (ok tt, update_rows (λ r. str_eq r.id id) (λ r. record r { deleted_at = some tx.clock }) s)
  ]

abbrev or_text : String → String → String
or_text new old = if str_eq new "" then old else new

abbrev or_time : Option Time → Option Time → Option Time
or_time none old = old
or_time (some t) old = some t

abbrev or_number : ℕ → ℕ → ℕ
or_number new old = if new == 0 then old else new

abbrev or_int : ℤ → ℤ → ℤ
or_int new old = if eqb_ℤ new (pos 0) then old else new

abbrev or_state : OutboxState → OutboxState → OutboxState
unfolding State.to_int
or_state new old = if eqb_ℤ (State.to_int new) (pos 0) then old else new

abbrev or_bytes : List ℕ → List ℕ → List ℕ
or_bytes [] old = old
or_bytes (b ∷ bs) old = b ∷ bs

-- gorm's Updates with a struct writes the fields that are not zero.
unfoldable pub sparse : Row → Time → Row → Row
unfolding or_state
sparse new clock r = record r {
  updated_at = clock;
  message_id = or_text new.message_id r.message_id;
  channel = or_text new.channel r.channel;
  payload = or_bytes new.payload r.payload;
  fingerprint = or_text new.fingerprint r.fingerprint;
  eligible_at = if new.eligible_at == time_zero then r.eligible_at else new.eligible_at;
  retry_deadline = or_time new.retry_deadline r.retry_deadline;
  attempts = or_number new.attempts r.attempts;
  lease_token = or_text new.lease_token r.lease_token;
  lease_until = or_time new.lease_until r.lease_until;
  dispatch_after = or_time new.dispatch_after r.dispatch_after;
  state = or_state new.state r.state;
  retry_count = or_number new.retry_count r.retry_count;
  max_retries = or_int new.max_retries r.max_retries;
  next_retry_at = or_time new.next_retry_at r.next_retry_at;
  last_error = or_text new.last_error r.last_error;
  sent_at = or_time new.sent_at r.sent_at;
}

module _ (uuids : Uuids) (tx : Tx) where
  unfoldable pub update : Outbox → Store → Result (Unit {0}) × Store
  unfolding update_rows sparse
  update o s =
      let outbox = outbox_entity_to_model uuids o in
      elim (tx.write_fault outbox.id) [
        | some e ↦ (err (RepoError.database e), s)
        | none ↦ (ok tt, update_rows (λ r. str_eq r.id outbox.id) (sparse outbox tx.clock) s)
      ]
