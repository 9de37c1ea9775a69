-- ===== src/Repo/Pacing.antt =====
-- How often and how much ReserveDispatch hands out.
use kaftar.Prelude.{
  ℕ, suc, ◌+◌, ◌≤◌, ◌<◌, ◌≡◌, List, [], ◌∷◌, Bool, true, false, if◌then◌else◌, arith, length,
  length-take-le, Bool-cases, Option-cases, inl, inr,
}
use kaftar.Entity.Time.{Time}
use kaftar.Entity.State.{is_sending}
use kaftar.Entity.Channel.{Channel}
use kaftar.Entity.Outbox.{Outbox}
use kaftar.Repo.Model.{Row, Uuids}
use kaftar.Repo.Table.{Store, Tx, select_rows, lock_rows, order_by}
use kaftar.Repo.Delivery.{
  exhausted, make_dead, recover, reserve_row, reserve_rows, write_row, due_rows, reserve_dispatch,
  transition_values, is_due, oldest_first,
}

recover-idle : (now : Time) (r : Row) → is_sending (recover now r).state ≡ false
unfolding recover
recover-idle now r = ground arith

-- A row that ReserveDispatch has written is not due again before the interval is over, whether it
-- was dispatched or found exhausted.
pub reserve_row-paced :
    (channel : Channel) (now now' clock : Time) (interval : ℕ) (r : Row)
    → now' < now + interval
    → is_due channel now' (transition_values (reserve_row now interval r).0 clock r) ≡ false
unfolding is_due transition_values reserve_row make_dead
reserve_row-paced channel now now' clock interval r h = elim (Bool-cases (exhausted r now)) [
  | inl over ↦ rw (over) (ground arith)
  | inr fine ↦ rw (fine) (ground (arith, recover-idle now r))
]

module _ (uuids : Uuids) (tx : Tx) where
  reserve_rows-length :
      (now : Time) (interval : ℕ) (rows : List Row) (s : Store)
      → length (reserve_rows uuids tx now interval rows s).0 ≤ length rows
  unfolding reserve_rows
  reserve_rows-length now interval [] s = omega arith
  reserve_rows-length now interval (row ∷ rows) s = elim (Option-cases (tx.write_fault row.id)) [
    | inl n ↦
        rw (n, reserve_rows)
          (kept (reserve_row now interval row).1 _ _ (
            reserve_rows-length now interval rows
              (write_row tx (reserve_row now interval row).0 s)))
    | inr (e, n) ↦ rw (n, reserve_rows) (kept (reserve_row now interval row).1 _ [] (omega arith))
  ]
    where
      kept :
          (dispatched : Bool) (o : Outbox) (os : List Outbox)
          → length os ≤ length rows
          → length (if dispatched then o ∷ os else os) ≤ suc (length rows)
      kept true o os h = omega arith
      kept false o os h = omega arith

  -- One call of ReserveDispatch hands out at most `limit` outboxes, faults or not.
  pub reserve_dispatch-length :
      (channel : Channel) (now : Time) (interval limit : ℕ) (s : Store)
      → length (reserve_dispatch uuids tx channel now interval limit s).0.0 ≤ limit
  unfolding reserve_dispatch due_rows
  reserve_dispatch-length channel now interval limit s = elim (Option-cases tx.read_fault) [
    | inr (e, n) ↦ rw (n, reserve_dispatch) (omega arith)
    | inl n ↦
        rw (n, reserve_dispatch)
          (omega (
            arith,
            reserve_rows-length now interval (due_rows uuids tx channel now limit s) s,
            length-take-le limit
                (order_by oldest_first (lock_rows tx (select_rows (is_due channel now) s))),
          ))
  ]
