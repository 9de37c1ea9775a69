-- ===== src/Repo/Migrate.antt =====
-- server/internal/repository/outbox_repo/migrate.go. The schema's statements are given by whether they
-- fail; of the schema itself the database keeps which migrations are recorded, and whether the unique
-- index on the keys is there.
use kaftar.Prelude.{
  ◌+◌, ◌*◌, String, Option, none, some, List, [], ◌∷◌, Bool, true, false, not, ◌&&◌, ◌||◌, any,
  str_eq, ℤ, pos, negsuc, ltb, if◌then◌else◌,
}
use kaftar.Entity.Time.{Time, time_zero, day}
use kaftar.Entity.State.{is_pending, is_sending}
use kaftar.Repo.Errors.{Result, ok, err, ◌>>=◌, database}
use kaftar.Repo.Model.{Row}
use kaftar.Repo.Table.{Store, select_rows, update_rows}

pub data Statement : Type 0 where
  take_lock create_migrations count_migrations migrate_table find_duplicates find_rows : Statement
  update_row : String → Statement
  create_key_index create_due_index record_migration commit : Statement

pub record MigrationTx : Type 0 where
  pub postgres : Bool
  pub clock : Time
  pub fault : Statement → Option String

pub record Database : Type 0 where
  pub rows : Store
  pub recorded : Bool
  pub key_index : Bool

-- time.Unix(0, 0)
abbrev pub unix_zero : Time
unix_zero = time_zero + 719162 * day

abbrev pub same_key : Row → Row → Bool
same_key a b =
    not (str_eq a.message_id "") && str_eq b.channel a.channel && str_eq b.message_id a.message_id

-- A group of the channel and a key with more than one row.
unfoldable pub has_duplicates : List Row → Bool
unfolding any
has_duplicates [] = false
has_duplicates (r ∷ rs) = any (same_key r) rs || has_duplicates rs

abbrev pub eligible_of : Row → Time
eligible_of r = elim r.next_retry_at [ none ↦ r.created_at | some t ↦ t ]

abbrev pub deadline_of : ℤ → Time → Option Time
deadline_of (negsuc n) eligible = none
deadline_of (pos age) eligible = if ltb 0 age then some (eligible + age) else none

-- The columns that the migration sets, and the stamp of gorm.
unfoldable pub migrated_row : ℤ → Time → Row → Row
migrated_row max_age clock r = record r {
  updated_at = clock;
  eligible_at = eligible_of r;
  retry_deadline = deadline_of max_age (eligible_of r);
  attempts = if is_pending r.state then 0 else r.retry_count + 1;
  lease_until = if is_sending r.state then some unix_zero else r.lease_until;
}

abbrev pub check : Bool → String → Result (Unit {0})
check true text = err (database text)
check false text = ok tt

module _ (tx : MigrationTx) (max_age : ℤ) where
  abbrev pub run : Statement → Result (Unit {0})
  run st = elim (tx.fault st) [ none ↦ ok tt | some e ↦ err (database e) ]

  -- The values are those of the row as it was read.
  abbrev pub write_values : Row → Row → Row
  unfolding migrated_row
  write_values r x =
      let m = migrated_row max_age tx.clock r in
      record x {
        updated_at = m.updated_at;
        eligible_at = m.eligible_at;
        retry_deadline = m.retry_deadline;
        attempts = m.attempts;
        lease_until = if is_sending r.state then m.lease_until else x.lease_until;
      }

  -- The loop over the rows, batch by batch.
  unfoldable pub migrate_rows : List Row → Store → Result Store
  unfolding update_rows write_values
  migrate_rows [] s = ok s
  migrate_rows (r ∷ rs) s =
      check (not (str_eq r.message_id "") && str_eq r.fingerprint "")
        "migration requires owner reconciliation of legacy keyed submissions"
      >>= λ u. run (update_row r.id) >>= λ u.
          migrate_rows rs (update_rows (λ x. str_eq x.id r.id) (write_values r) s)

  abbrev pub when_postgres : Result (Unit {0})
  when_postgres = if tx.postgres then run take_lock else ok tt

  -- What follows the count of the recorded migrations. The index is over all rows, the deleted too.
  unfoldable pub migrate_data : Database → Result Database
  unfolding has_duplicates select_rows migrate_rows
  migrate_data d = do
    u1 ← run migrate_table
    u2 ← run find_duplicates
    u3 ←
        check (has_duplicates (select_rows (λ r. true) d.rows))
          "migration requires owner reconciliation of duplicate idempotency keys"
    u4 ← run find_rows
    rows ← migrate_rows (select_rows (λ r. true) d.rows) d.rows
    u5 ← run create_key_index
    u6 ← check (has_duplicates rows) "could not create unique index"
    u7 ← run create_due_index
    u8 ← run record_migration
    ok (record { rows = rows; recorded = true; key_index = true })

  unfoldable pub migrate_transaction : Database → Result Database
  unfolding migrate_data
  migrate_transaction d = do
    u1 ← when_postgres
    u2 ← run create_migrations
    u3 ← run count_migrations
    d' ← if d.recorded then ok d else migrate_data d
    u4 ← run commit
    ok d'

  abbrev pub outcome_of : Database → Result Database → Result (Unit {0}) × Database
  outcome_of d (err e) = (err e, d)
  outcome_of d (ok d') = (ok tt, d')

  -- Migrate: its error, and the database after it. A transaction that fails is rolled back.
  unfoldable pub migrate : Database → Result (Unit {0}) × Database
  unfolding migrate_transaction
  migrate d = outcome_of d (migrate_transaction d)
