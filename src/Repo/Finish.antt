-- ===== src/Repo/Finish.antt =====
-- The outcomes of Finish, as an induction rule: one conditional update, or nothing.
use kaftar.Prelude.{◌==◌, length, Option-cases, Bool-cases, inl, inr}
use kaftar.Entity.Time.{Time}
use kaftar.Entity.Outbox.{Outbox}
use kaftar.Repo.Model.{Uuids}
use kaftar.Repo.Table.{Store, Tx, select_rows, update_rows}
use kaftar.Repo.Delivery.{transition_values, finished_row, holds_lease, finish}

pub finish_store :
    (uuids : Uuids) (tx : Tx) (o : Outbox) (now : Time) (s : Store) (P : Store → Type 0)
    → P s
    → P (
        update_rows
          (holds_lease uuids o now)
          (transition_values (finished_row uuids o now) tx.clock)
          s)
    → P (finish uuids tx o now s).1
unfolding finish
finish_store uuids tx o now s P failed written =
    elim (Option-cases (tx.write_fault (uuids.print o.id))) [
      | inr (x, e) ↦ rw (e, finish) failed
      | inl e ↦
          rw (e, finish)
            (elim (Bool-cases (length (select_rows (holds_lease uuids o now) s) == 1)) [
              | inl one ↦ rw one written
              | inr other ↦ rw other written
            ])
    ]
