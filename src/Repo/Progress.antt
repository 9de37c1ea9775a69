-- ===== src/Repo/Progress.antt =====
-- No due row waits for ever: what ReserveDispatch hands out when the database lets it.
use kaftar.Prelude.{
  ℕ, zero, suc, ap, ◌+◌, ◌≤◌, ◌≡◌, ◌∙◌, ◌&&◌, refl, subst, none, some, is_some, List, [], ◌∷◌, Bool,
  true, false, arith, All, All-mono, All-filter, All-filter_test, length, take, not, filter,
  Bool-cases, inl, inr, if◌then◌else◌, String,
}
use mathlib.Core.List.{Memᴰ}
use kaftar.Entity.Time.{Time}
use kaftar.Entity.Channel.{Channel}
use kaftar.Entity.Outbox.{Outbox}
use kaftar.Repo.Errors.{Result, ok}
use kaftar.Entity.State.{is_sending, failed, dead}
use kaftar.Repo.Keys.{Distinct, was_ordered}
use kaftar.Repo.Spent.{IsSpent, IsAble, exhausted-IsSpent, exhausted-IsAble}
use kaftar.Repo.Reserve.{id-reserve_row, All-due_rows, Distinct-due_rows}
use kaftar.Repo.Written.{loop_store, row-Memᴰ, All-Memᴰ-write_row}
use kaftar.Repo.Model.{Row, Uuids, outbox_model_to_entity}
use kaftar.Repo.Table.{Store, Tx, select_rows, lock_rows, insert_by, order_by}
use kaftar.Repo.Delivery.{
  exhausted, make_dead, recover, transition_values, reserve_row, reserve_rows, write_row, due_rows,
  is_due, oldest_first, reserve_dispatch, finish_transaction,
}

-- A database on which nothing fails and no other transaction holds a row.
pub record IsCalm (tx : Tx) : Type 0 where
  pub reads : tx.read_fault ≡ none
  pub writes : (id : String) → tx.write_fault id ≡ none
  pub commits : tx.commit_fault ≡ none
  pub unlocked : (r : Row) → tx.locked r ≡ false

module _ (le : Row → Row → Bool) where
  length-insert_by : (r : Row) (rows : List Row) → length (insert_by le r rows) ≡ suc (length rows)
  unfolding insert_by
  length-insert_by r [] = refl
  length-insert_by r (x ∷ rows) = ground (arith, length-insert_by r rows)

  length-order_by : (rows : List Row) → length (order_by le rows) ≡ length rows
  unfolding order_by
  length-order_by [] = refl
  length-order_by (r ∷ rows) =
      omega (arith, length-insert_by r (order_by le rows), length-order_by rows)

take-all : (n : ℕ) (rows : List Row) → length rows ≤ n → take n rows ≡ rows
take-all zero [] h = refl
take-all (suc n) [] h = refl
take-all zero (r ∷ rows) h = absurd (omega (arith, h))
take-all (suc n) (r ∷ rows) h = ap (λ l. r ∷ l) (take-all n rows (omega (arith, h)))

unlocked_rows :
    (tx : Tx) (rows : List Row)
    → ((r : Row) → tx.locked r ≡ false)
    → filter (λ r. not (tx.locked r)) rows ≡ rows
unfolding filter
unlocked_rows tx [] h = refl
unlocked_rows tx (r ∷ rows) h = ground (arith, h r, unlocked_rows tx rows h)

-- What has become of a due row, in the outboxes handed out and in the table: its delivery has ended,
-- or it was handed out, is open, and is not due again before the interval is over.
pub data IsServed (uuids : Uuids) (now : Time) (interval : ℕ) (handed : List Outbox) (t : Store)
    (r : Row) : Type 0 where
  ended :
      IsSpent now r
      → (x : Row) → Memᴰ x t
      → x.id ≡ r.id
      → x.state ≡ dead
      → x.lease_token ≡ ""
      → x.next_retry_at ≡ none
      → x.dispatch_after ≡ none
      → IsServed uuids now interval handed t r
  handed_out :
      IsAble now r
      → (x : Row) → Memᴰ x t
      → x.id ≡ r.id
      → x.state ≡ (if is_sending r.state then failed else r.state)
      → x.dispatch_after ≡ some (now + interval)
      → (o : Outbox) → Memᴰ o handed
      → o.id ≡ (outbox_model_to_entity uuids r).id
      → o.channel ≡ r.channel
      → o.payload ≡ r.payload
      → o.state ≡ x.state
      → IsServed uuids now interval handed t r

module _ (uuids : Uuids) (tx : Tx) (calm : IsCalm tx) (now : Time) (interval : ℕ) where
  next_rows :
      (r : Row) (rows : List Row) (s : Store)
      → (reserve_rows uuids tx now interval (r ∷ rows) s).0 ≡ (
          let later =
            reserve_rows uuids tx now interval rows
              (write_row tx (reserve_row now interval r).0 s) in
          if (reserve_row now interval r).1
          then outbox_model_to_entity uuids (reserve_row now interval r).0 ∷ later.0
          else later.0)
  unfolding reserve_rows
  next_rows r rows s = rw (calm.writes r.id, reserve_rows) refl

  IsServed-later :
      (b : Bool) (o : Outbox) (os : List Outbox) (t : Store) (x : Row)
      → IsServed uuids now interval os t x
      → IsServed uuids now interval (if b then o ∷ os else os) t x
  IsServed-later false o os t x served = served
  IsServed-later true o os t x (ended e y m i s l n d) = ended e y m i s l n d
  IsServed-later true o os t x (handed_out e y m i s d p k j c q u) =
      handed_out e y m i s d p (Memᴰ.tail k) j c q u

  IsServed-now :
      (r : Row) (os : List Outbox) (t : Store)
      → Memᴰ (transition_values (reserve_row now interval r).0 tx.clock r) t
      → IsServed uuids now interval
          (if (reserve_row now interval r).1
            then outbox_model_to_entity uuids (reserve_row now interval r).0 ∷ os
            else os)
          t
          r
  unfolding reserve_row transition_values make_dead recover outbox_model_to_entity
  IsServed-now r os t m = elim (Bool-cases (exhausted r now)) [
    | inl e ↦ rw (e) (ended (exhausted-IsSpent r now e) _ (rw (e) at m) refl refl refl refl refl)
    | inr e ↦ elim (Bool-cases (is_sending r.state)) [
      | inl s ↦
          rw (e, s)
            (handed_out (exhausted-IsAble r now e) _ (rw (e, s) at m) refl (rw (s) refl) refl _
              (Memᴰ.head refl) refl refl refl refl)
      | inr s ↦
          rw (e, s)
            (handed_out (exhausted-IsAble r now e) _ (rw (e, s) at m) refl (rw (s) refl) refl _
              (Memᴰ.head refl) refl refl refl refl)
    ]
  ]

  IsServed-rows :
      (rows : List Row) (s : Store)
      → Distinct rows
      → All (λ r. Memᴰ r s) rows
      → All (λ r. is_some r.deleted_at ≡ false) rows
      → All
          (IsServed uuids now interval
            (reserve_rows uuids tx now interval rows s).0
            (loop_store tx now interval rows s))
          rows
  unfolding loop_store
  IsServed-rows [] s d m live = tt
  IsServed-rows (r ∷ rows) s d m live =
      let v = (reserve_row now interval r).0 in
      let s' = write_row tx v s in
      let os = (reserve_rows uuids tx now interval rows s').0 in
      let t = loop_store tx now interval rows s' in
      (
        rw (next_rows r rows s)
            (IsServed-now r os t (row-Memᴰ tx now interval r rows s m.0 live.0 d.0)),
        All-mono
            (λ x served. rw (next_rows r rows s) (
              IsServed-later (reserve_row now interval r).1 (outbox_model_to_entity uuids v) os t x
                served))
            rows
            (IsServed-rows rows s' d.1
              (All-Memᴰ-write_row tx now interval v rows s
                (All-mono (λ x n e. n (e ∙ id-reserve_row now interval r)) rows d.0) m.1)
              live.1),
      )

  no_locks : (rows : List Row) → lock_rows tx rows ≡ rows
  unfolding lock_rows
  no_locks rows = elim (Bool-cases tx.postgres) [
    | inl p ↦ rw (p) (unlocked_rows tx rows calm.unlocked)
    | inr p ↦ rw (p) refl
  ]

  all_due :
      (channel : Channel) (limit : ℕ) (s : Store)
      → length (select_rows (is_due channel now) s) ≤ limit
      → due_rows uuids tx channel now limit s
        ≡ order_by oldest_first (select_rows (is_due channel now) s)
  unfolding due_rows
  all_due channel limit s h =
      let rows = select_rows (is_due channel now) s in
      rw (no_locks rows) (
        take-all limit (order_by oldest_first rows)
          (omega (arith, length-order_by oldest_first rows, h)))

  wrote :
      (rows : List Row) (s : Store)
      → (reserve_rows uuids tx now interval rows s).1 ≡ ok (loop_store tx now interval rows s)
  unfolding reserve_rows loop_store
  wrote [] s = refl
  wrote (r ∷ rows) s =
      rw (calm.writes r.id, reserve_rows)
        (wrote rows (write_row tx (reserve_row now interval r).0 s))

  committed :
      (s : Store) (outcome : Result Store) (t : Store)
      → outcome ≡ ok t
      → finish_transaction tx s outcome ≡ (none, t)
  committed s outcome t e = rw (e, calm.commits) refl

  All-Memᴰ-self : (s : Store) → All (λ r. Memᴰ r s) s
  All-Memᴰ-self [] = tt
  All-Memᴰ-self (r ∷ s) = (Memᴰ.head refl, All-mono (λ x m. Memᴰ.tail m) s (All-Memᴰ-self s))

  -- Over a table with distinct IDs, when the database is calm and no more than the limit of a
  -- channel's rows are due, ReserveDispatch commits. Each due row whose budget or age is exhausted is
  -- dead in the table then, with no lease and no time at which it is due. Every other one is handed
  -- out with its ID, channel and payload, and in the table it is in the state it was in, or failed
  -- where its worker's lease ran out, and is not dispatched again before the interval is over.
  pub reserve_dispatch-IsServed :
      (channel : Channel) (limit : ℕ) (s : Store)
      → Distinct s
      → length (select_rows (is_due channel now) s) ≤ limit
      → ((reserve_dispatch uuids tx channel now interval limit s).0.1 ≡ none)
        × All
            (IsServed uuids now interval
              (reserve_dispatch uuids tx channel now interval limit s).0.0
              (reserve_dispatch uuids tx channel now interval limit s).1)
            (select_rows (is_due channel now) s)
  unfolding reserve_dispatch
  reserve_dispatch-IsServed channel limit s d h =
      let due = select_rows (is_due channel now) s in
      let rows = due_rows uuids tx channel now limit s in
      let served =
        IsServed-rows rows s (Distinct-due_rows uuids tx channel now limit s d)
          (All-due_rows uuids tx channel now limit (λ r. Memᴰ r s) s (all_there channel s))
          (All-due_rows uuids tx channel now limit (λ r. is_some r.deleted_at ≡ false) s
            (all_live channel s)) in
      rw
        (
          calm.reads,
          reserve_dispatch,
          committed s (reserve_rows uuids tx now interval rows s).1
              (loop_store tx now interval rows s) (wrote rows s),
        )
        (
          refl,
          was_ordered oldest_first
              (IsServed uuids now interval (reserve_rows uuids tx now interval rows s).0
                (loop_store tx now interval rows s))
              due
              (subst
                (λ l.
                  All
                    (IsServed uuids now interval (reserve_rows uuids tx now interval rows s).0
                      (loop_store tx now interval rows s))
                    l)
                (all_due channel limit s h) served),
        )
    where
      all_there :
          (channel : Channel) (s : Store) → All (λ r. Memᴰ r s) (select_rows (is_due channel now) s)
      all_there channel s =
          unfold select_rows in
          All-filter (λ r. Memᴰ r s) (λ r. not (is_some r.deleted_at) && is_due channel now r) s
            (All-Memᴰ-self s)

      all_live :
          (channel : Channel) (s : Store)
          → All (λ (r : Row). is_some r.deleted_at ≡ false) (select_rows (is_due channel now) s)
      all_live channel s =
          unfold select_rows in
          All-filter_test (λ (r : Row). is_some r.deleted_at ≡ false)
            (λ r. not (is_some r.deleted_at) && is_due channel now r) (λ r h. ground arith) s
