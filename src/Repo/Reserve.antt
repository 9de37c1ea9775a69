-- ===== src/Repo/Reserve.antt =====
-- The loop of ReserveDispatch, over any property of the table that one write keeps.
use kaftar.Prelude.{
  ℕ, ◌≡◌, ◌≢◌, refl, sym, ◌∙◌, String, List, [], ◌∷◌, true, not, is_some, ◌&&◌, arith, All,
  All-mono, All-of, All-filter, All-filter_test, All-take, str_eq, str_eq_iff, Option-cases, inl,
  inr,
}
use kaftar.Entity.Time.{Time}
use kaftar.Repo.Errors.{Result, ok, err}
use kaftar.Repo.Model.{Row, Uuids}
use kaftar.Repo.Table.{Store, Tx, select_rows}
use kaftar.Repo.Delivery.{
  transition_values, reserve_row, write_row, is_due, oldest_first, reserve_rows, due_rows,
  reserve_dispatch, finish_transaction,
}
use kaftar.Repo.Grows.{All-update_rows}
use kaftar.Repo.Keys.{
  Distinct, Only, Only-All, Distinct-filter, Distinct-take, Distinct-order_by, Distinct-lock_rows,
  All-order_by, All-lock_rows,
}

pub id-reserve_row :
    (now : Time) (interval : ℕ) (r : Row) → (reserve_row now interval r).0.id ≡ r.id
unfolding reserve_row
id-reserve_row now interval r = ground arith

-- A write by one id leaves another row the only one with its id.
pub Only-write_row :
    (tx : Tx) (v r : Row) (s : Store) → v.id ≢ r.id → Only r s → Only r (write_row tx v s)
unfolding write_row
Only-write_row tx v r s other o =
    All-update_rows (λ x. x.id ≡ r.id → x ≡ r) (λ x. x.id ≡ r.id → x ≡ r) (λ x. str_eq x.id v.id)
      (transition_values v tx.clock) s (All-of _ (λ x h. h) s)
      (All-of _ (λ x hit k e. absurd (other (sym ((str_eq_iff x.id v.id).0 hit) ∙ e))) s) o

-- Rows that a loop still has to write: distinct, and each the only one with its id.
pub record Pending (c : String) (now : Time) (rows : List Row) (s : Store) : Type 0 where
  pub due : All (λ r. is_due c now r ≡ true) rows
  pub distinct : Distinct rows
  pub only : All (λ r. Only r s) rows

Pending-write_row :
    (tx : Tx) (v : Row) (s : Store) (rows : List Row)
    → All (λ x. x.id ≢ v.id) rows
    → All (λ r. Only r s) rows
    → All (λ r. Only r (write_row tx v s)) rows
Pending-write_row tx v s [] h o = tt
Pending-write_row tx v s (r ∷ rows) h o =
    (Only-write_row tx v r s (λ e. h.0 (sym e)) o.0, Pending-write_row tx v s rows h.1 o.1)

module _ (uuids : Uuids) (tx : Tx) (c : String) (now : Time) (limit : ℕ) where
  pub All-due_rows :
      (P : Row → Type 0) (s : Store)
      → All P (select_rows (is_due c now) s)
      → All P (due_rows uuids tx c now limit s)
  unfolding due_rows
  All-due_rows P s a = All-take P limit _ (All-order_by oldest_first P _ (All-lock_rows tx P _ a))

  pub Distinct-due_rows : (s : Store) → Distinct s → Distinct (due_rows uuids tx c now limit s)
  unfolding due_rows
  Distinct-due_rows s d = Distinct-take limit _ (
      Distinct-order_by oldest_first _ (
        Distinct-lock_rows tx _
          (Distinct-filter (λ r. not (is_some r.deleted_at) && is_due c now r) s d)))

-- A round that did not fail wrote its row and left the rest to the loop.
reserve_rows_step :
    (uuids : Uuids) (tx : Tx) (now : Time) (interval : ℕ) (r : Row) (rows : List Row) (s t : Store)
    → (reserve_rows uuids tx now interval (r ∷ rows) s).1 ≡ ok t
    → (reserve_rows uuids tx now interval rows (write_row tx (reserve_row now interval r).0 s)).1
      ≡ ok t
unfolding reserve_rows
reserve_rows_step uuids tx now interval r rows s t h = ground arith

module _ (uuids : Uuids) (tx : Tx) (c : String) (now : Time) (interval : ℕ)
    (T : Store → Store → Type 0) (still : (s : Store) → T s s)
    (join : (s t u : Store) → T s t → T t u → T s u)
    (one : (r : Row) (s : Store)
      → is_due c now r ≡ true
      → Only r s
      → T s (write_row tx (reserve_row now interval r).0 s)) where
  reserve_rows_induction :
      (rows : List Row) (s t : Store)
      → Pending c now rows s
      → (reserve_rows uuids tx now interval rows s).1 ≡ ok t
      → T s t
  unfolding reserve_rows
  reserve_rows_induction [] s t p h = ground (arith, still s)
  reserve_rows_induction (r ∷ rows) s t p h =
      let v = (reserve_row now interval r).0 in
      join s (write_row tx v s) t (one r s p.due.0 p.only.0) (
        reserve_rows_induction rows (write_row tx v s) t
          (record {
            due = p.due.1;
            distinct = p.distinct.1;
            only =
                Pending-write_row tx v s rows
                  (All-mono (λ x d e. d (e ∙ id-reserve_row now interval r)) rows p.distinct.0)
                  p.only.1;
          })
          (reserve_rows_step uuids tx now interval r rows s t h))

  Pending-due_rows :
      (limit : ℕ) (s : Store) → Distinct s → Pending c now (due_rows uuids tx c now limit s) s
  unfolding due_rows
  Pending-due_rows limit s d = record {
    due =
        All-due_rows uuids tx c now limit (λ r. is_due c now r ≡ true) s
          (All-filter_test (λ r. is_due c now r ≡ true)
            (λ r. not (is_some r.deleted_at) && is_due c now r) (λ r h. ground arith) s);
    distinct = Distinct-due_rows uuids tx c now limit s d;
    only =
        All-due_rows uuids tx c now limit (λ r. Only r s) s
          (All-filter (λ r. Only r s) (λ r. not (is_some r.deleted_at) && is_due c now r) s
            (Only-All s d));
  }

  after_transaction :
      (s : Store) (o : Result Store)
      → ((t : Store) → o ≡ ok t → T s t)
      → T s (finish_transaction tx s o).1
  after_transaction s (err e) h = still s
  after_transaction s (ok t) h = elim (Option-cases tx.commit_fault) [
    | inl e ↦ rw e (h t refl)
    | inr (x, e) ↦ rw e (still s)
  ]

  -- Whatever a call of ReserveDispatch leaves behind is related to what it found.
  pub reserve_dispatch_induction :
      (limit : ℕ) (s : Store)
      → Distinct s
      → T s (reserve_dispatch uuids tx c now interval limit s).1
  unfolding reserve_dispatch
  reserve_dispatch_induction limit s d = elim (Option-cases tx.read_fault) [
    | inr (x, e) ↦ rw (e, reserve_dispatch) (still s)
    | inl e ↦
        rw (e, reserve_dispatch)
          (after_transaction s
            (reserve_rows uuids tx now interval (due_rows uuids tx c now limit s) s).1
            (λ t h.
              reserve_rows_induction (due_rows uuids tx c now limit s) s t
                (Pending-due_rows limit s d) h))
  ]
