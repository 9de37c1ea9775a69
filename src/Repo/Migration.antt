-- ===== src/Repo/Migration.antt =====
-- A server that starts again does not migrate again.
use kaftar.Prelude.{◌≡◌, refl, ◌∙◌, Bool, true, false, arith, ℤ, if◌then◌else◌}
use kaftar.Repo.Errors.{Result, ok, err, ◌>>=◌}
use kaftar.Repo.Migrate.{
  MigrationTx, Database, create_migrations, count_migrations, migrate_table, find_duplicates,
  find_rows, create_key_index, create_due_index, record_migration, commit, run, check,
  has_duplicates, migrate_rows, migrate_data, migrate_transaction, migrate, when_postgres,
  outcome_of,
}
use kaftar.Repo.Table.{select_rows}

module _ {A B : Type 0} where
  then_ok :
      (r : Result A) (f : A → Result B) (b : B)
      → (r >>= f) ≡ ok b
      → (a : A) × (r ≡ ok a) × (f a ≡ ok b)
  then_ok (ok a) f b h = (a, refl, h)
  then_ok (err e) f b h = absurd (ground arith)

module _ (tx : MigrationTx) (max_age : ℤ) where
  data-recorded : (d d' : Database) → migrate_data tx max_age d ≡ ok d' → d'.recorded ≡ true
  unfolding migrate_data
  data-recorded d d' h =
      let (u1, e1, h1) = then_ok (run tx max_age migrate_table) _ d' h in
      let (u2, e2, h2) = then_ok (run tx max_age find_duplicates) _ d' h1 in
      let (u3, e3, h3) =
        then_ok (check (has_duplicates (select_rows (λ r. true) d.rows)) _) _ d' h2 in
      let (u4, e4, h4) = then_ok (run tx max_age find_rows) _ d' h3 in
      let (rows, e5, h5) =
        then_ok (migrate_rows tx max_age (select_rows (λ r. true) d.rows) d.rows) _ d' h4 in
      let (u5, e6, h6) = then_ok (run tx max_age create_key_index) _ d' h5 in
      let (u6, e7, h7) = then_ok (check (has_duplicates rows) _) _ d' h6 in
      let (u7, e8, h8) = then_ok (run tx max_age create_due_index) _ d' h7 in
      let (u8, e9, h9) = then_ok (run tx max_age record_migration) _ d' h8 in ground (arith, h9)

  -- What a transaction that succeeds has come to.
  last_step :
      (d d' : Database)
      → migrate_transaction tx max_age d ≡ ok d'
      → (if d.recorded then ok d else migrate_data tx max_age d) ≡ ok d'
  unfolding migrate_transaction
  last_step d d' h =
      let (u1, e1, h1) = then_ok (when_postgres tx max_age) _ d' h in
      let (u2, e2, h2) = then_ok (run tx max_age create_migrations) _ d' h1 in
      let (u3, e3, h3) = then_ok (run tx max_age count_migrations) _ d' h2 in
      let (e, e4, h4) = then_ok (if d.recorded then ok d else migrate_data tx max_age d) _ d' h3 in
      let (u5, e5, h5) = then_ok (run tx max_age commit) _ d' h4 in e4 ∙ h5

either_recorded :
    (b : Bool) (d d' : Database) (r : Result Database)
    → d.recorded ≡ b
    → (r ≡ ok d' → d'.recorded ≡ true)
    → (if b then ok d else r) ≡ ok d'
    → d'.recorded ≡ true
either_recorded true d d' r e k h = ground (arith, e, h)
either_recorded false d d' r e k h = k h

same_database :
    (b : Bool) (d d' : Database) (r : Result Database)
    → b ≡ true
    → (if b then ok d else r) ≡ ok d'
    → d' ≡ d
same_database true d d' r e h = ground (arith, h)
same_database false d d' r e h = absurd (ground arith)

module _ (tx : MigrationTx) (max_age : ℤ) where
  stays :
      (d : Database) (r : Result Database)
      → ((d' : Database) → r ≡ ok d' → d' ≡ d)
      → (outcome_of tx max_age d r).1 ≡ d
  stays d (err e) k = refl
  stays d (ok d') k = k d' refl

  -- Where the migration is recorded a transaction can fail or leave the database as it is.
  unmoved : (d : Database) → d.recorded ≡ true → (migrate tx max_age d).1 ≡ d
  unfolding migrate
  unmoved d h = stays d (migrate_transaction tx max_age d) (λ d' e.
      same_database d.recorded d d' (migrate_data tx max_age d) h (last_step tx max_age d d' e))

  succeeded :
      (d : Database) (r : Result Database)
      → ((d' : Database) → r ≡ ok d' → d'.recorded ≡ true)
      → (outcome_of tx max_age d r).0 ≡ ok tt
      → (outcome_of tx max_age d r).1.recorded ≡ true
  succeeded d (err e) k h = absurd (ground arith)
  succeeded d (ok d') k h = k d' refl

  pub recorded_then :
      (d : Database) → (migrate tx max_age d).0 ≡ ok tt → (migrate tx max_age d).1.recorded ≡ true
  unfolding migrate
  recorded_then d = succeeded d (migrate_transaction tx max_age d) (λ d' e.
      either_recorded d.recorded d d' (migrate_data tx max_age d) refl
        (data-recorded tx max_age d d') (last_step tx max_age d d' e))

-- After a migration that succeeded, another one, with whatever faults and whatever maximal age, leaves
-- the database as it is.
pub migrate_again :
    (tx tx' : MigrationTx) (max_age max_age' : ℤ) (d : Database)
    → (migrate tx max_age d).0 ≡ ok tt
    → (migrate tx' max_age' (migrate tx max_age d).1).1 ≡ (migrate tx max_age d).1
migrate_again tx tx' max_age max_age' d h =
    unmoved tx' max_age' (migrate tx max_age d).1 (recorded_then tx max_age d h)
