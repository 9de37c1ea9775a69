-- ===== src/Repo/Table.antt =====
-- The table as gorm and SQL see it. A query without `Unscoped` skips the rows that are marked as
-- deleted. `Tx` is what the database does during one call, which the model takes from outside: the
-- clock that stamps rows, the rows that other transactions hold, and the statements that fail; and
-- whether the insertion of a row, whose failure is reported, was committed all the same.
use kaftar.Prelude.{
  String, Option, none, some, List, [], ◌∷◌, map, Bool, ◌&&◌, not, if◌then◌else◌, filter, is_some,
}
use kaftar.Entity.Time.{Time}
use kaftar.Repo.Errors.{Result, ok, err, database}
use kaftar.Repo.Model.{Row}

abbrev pub Store : Type 0
Store = List Row

pub record Tx : Type 0 where
  pub clock : Time
  pub postgres : Bool
  pub locked : Row → Bool
  pub read_fault : Option String
  pub write_fault : String → Option String
  pub commit_fault : Option String
  pub committed : String → Bool

-- SELECT … WHERE p
unfoldable pub select_rows : (Row → Bool) → Store → List Row
unfolding filter
select_rows p = filter (λ r. not (is_some r.deleted_at) && p r)

-- UPDATE … SET f WHERE p
unfoldable pub update_rows : (Row → Bool) → (Row → Row) → Store → Store
update_rows p f = map (λ r. if not (is_some r.deleted_at) && p r then f r else r)

-- FOR UPDATE SKIP LOCKED, on PostgreSQL only.
unfoldable pub lock_rows : Tx → List Row → List Row
unfolding filter
lock_rows tx rows = if tx.postgres then filter (λ r. not (tx.locked r)) rows else rows

-- ORDER BY: a stable insertion sort.
unfoldable pub insert_by : (Row → Row → Bool) → Row → List Row → List Row
insert_by le r [] = r ∷ []
insert_by le r (x ∷ xs) = let rest = insert_by le r xs in if le r x then r ∷ x ∷ xs else x ∷ rest

unfoldable pub order_by : (Row → Row → Bool) → List Row → List Row
unfolding insert_by
order_by le [] = []
order_by le (r ∷ rs) = insert_by le r (order_by le rs)

abbrev pub head_row : List Row → Option Row
head_row [] = none
head_row (r ∷ rs) = some r

-- The outcome of a statement or a commit.
abbrev pub attempt {ℓ} : {A : Type ℓ} → Option String → A → Result A
attempt none a = ok a
attempt (some e) a = err (database e)
