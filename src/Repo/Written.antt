-- ===== src/Repo/Written.antt =====
-- Which rows a table has after the loop of ReserveDispatch, where every write goes through.
use kaftar.Prelude.{
  ℕ, ◌≡◌, ◌≢◌, sym, subst, ap, ◌∙◌, List, [], ◌∷◌, map, false, ◌&&◌, not, is_some, arith, All,
  str_eq, str_eq_iff, if◌then◌else◌,
}
use mathlib.Core.List.{Memᴰ}
use kaftar.Entity.Time.{Time}
use kaftar.Repo.Model.{Row}
use kaftar.Repo.Table.{Store, Tx, update_rows}
use kaftar.Repo.Delivery.{reserve_row, write_row, transition_values}
use kaftar.Repo.Reserve.{id-reserve_row}

Memᴰ-map : (f : Row → Row) {x : Row} {s : Store} → Memᴰ x s → Memᴰ (f x) (map f s)
Memᴰ-map f (Memᴰ.head e) = Memᴰ.head (ap f e)
Memᴰ-map f (Memᴰ.tail m) = Memᴰ.tail (Memᴰ-map f m)

module _ (tx : Tx) (v : Row) where
  abbrev write : Row → Row
  write r =
      if not (is_some r.deleted_at) && str_eq r.id v.id then transition_values v tx.clock r else r

  -- A write changes the row that has its ID.
  written-Memᴰ :
      (r : Row) (s : Store)
      → Memᴰ r s
      → is_some r.deleted_at ≡ false
      → v.id ≡ r.id
      → Memᴰ (transition_values v tx.clock r) (write_row tx v s)
  unfolding write_row update_rows
  written-Memᴰ r s m live e = subst (λ x. Memᴰ x (map write s)) (hit r live e) (Memᴰ-map write m)
    where
      hit :
          (r : Row)
          → is_some r.deleted_at ≡ false
          → v.id ≡ r.id
          → write r ≡ transition_values v tx.clock r
      hit r live e = ground (arith, live, (str_eq_iff r.id v.id).1 (sym e))

  -- It leaves the rows that have another.
  unwritten-Memᴰ : (x : Row) (s : Store) → Memᴰ x s → x.id ≢ v.id → Memᴰ x (write_row tx v s)
  unfolding write_row update_rows
  unwritten-Memᴰ x s m other = subst (λ y. Memᴰ y (map write s)) (miss x other) (Memᴰ-map write m)
    where
      miss : (x : Row) → x.id ≢ v.id → write x ≡ x
      miss x other = ground (arith, other, (str_eq_iff x.id v.id).0)

module _ (tx : Tx) (now : Time) (interval : ℕ) where
  -- The table after the loop.
  unfoldable pub loop_store : List Row → Store → Store
  unfolding write_row reserve_row
  loop_store [] s = s
  loop_store (r ∷ rows) s = loop_store rows (write_row tx (reserve_row now interval r).0 s)

  pub kept-Memᴰ :
      (x : Row) (rows : List Row) (s : Store)
      → Memᴰ x s
      → All (λ r. r.id ≢ x.id) rows
      → Memᴰ x (loop_store rows s)
  unfolding loop_store
  kept-Memᴰ x [] s m others = m
  kept-Memᴰ x (r ∷ rows) s m others =
      let v = (reserve_row now interval r).0 in
      kept-Memᴰ x rows (write_row tx v s)
        (unwritten-Memᴰ tx v x s m (λ e. others.0 (sym (e ∙ id-reserve_row now interval r))))
        others.1

  -- A row that is written stays as it was written, if the rows after it have other IDs.
  pub row-Memᴰ :
      (r : Row) (rows : List Row) (s : Store)
      → Memᴰ r s
      → is_some r.deleted_at ≡ false
      → All (λ x. x.id ≢ r.id) rows
      → Memᴰ (transition_values (reserve_row now interval r).0 tx.clock r) (loop_store (r ∷ rows) s)
  unfolding loop_store transition_values
  row-Memᴰ r rows s m live others =
      let v = (reserve_row now interval r).0 in
      kept-Memᴰ (transition_values v tx.clock r) rows (write_row tx v s)
        (written-Memᴰ tx v r s m live (id-reserve_row now interval r)) others

  -- The rows after it are still in the table.
  pub All-Memᴰ-write_row :
      (v : Row) (rows : List Row) (s : Store)
      → All (λ x. x.id ≢ v.id) rows
      → All (λ x. Memᴰ x s) rows
      → All (λ x. Memᴰ x (write_row tx v s)) rows
  All-Memᴰ-write_row v [] s others m = tt
  All-Memᴰ-write_row v (x ∷ rows) s others m =
      (unwritten-Memᴰ tx v x s m.0 others.0, All-Memᴰ-write_row v rows s others.1 m.1)
