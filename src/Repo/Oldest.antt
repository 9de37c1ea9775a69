-- ===== src/Repo/Oldest.antt =====
-- The oldest waiting row of each channel, as Stats reads it.
use kaftar.Prelude.{
  ◌≤◌, ◌≡◌, refl, none, some, List, [], ◌∷◌, map, Bool, true, false, ◌&&◌, All, All-mono, All-any,
  any-All, ◌==◌, any, arith, Bool-cases, inl, inr, leb,
}
use kaftar.Entity.Channel.{Channel}
use kaftar.Repo.Model.{Row}
use kaftar.Repo.Errors.{ok}
use kaftar.Repo.Table.{Store, select_rows, order_by, insert_by, head_row}
use kaftar.Repo.Counts.{live}
use kaftar.Repo.Keys.{was_ordered, All-order_by, All-insert_by}
use kaftar.Repo.Stats.{Reads, OldestPending, waits_in, by_eligible_at, oldest_row, oldest_of}

abbrev NotBefore : Row → List Row → Type 0
NotBefore r = All (λ x. r.eligible_at ≤ x.eligible_at)

abbrev Sorted : List Row → Type 0
Sorted [] = Unit
Sorted (r ∷ rs) = NotBefore r rs × Sorted rs

insert_by-Sorted : (r : Row) (xs : List Row) → Sorted xs → Sorted (insert_by by_eligible_at r xs)
unfolding insert_by
insert_by-Sorted r [] s = (tt, tt)
insert_by-Sorted r (x ∷ xs) s = elim (Bool-cases (leb r.eligible_at x.eligible_at)) [
  | inl h ↦ rw h (((ground arith), All-mono (λ y e. ground arith) xs s.0), s)
  | inr h ↦ rw h (
    All-insert_by by_eligible_at (λ y. x.eligible_at ≤ y.eligible_at) r xs (ground arith) s.0,
    insert_by-Sorted r xs s.1,
  )
]

order_by-Sorted : (rows : List Row) → Sorted (order_by by_eligible_at rows)
unfolding order_by
order_by-Sorted [] = tt
order_by-Sorted (r ∷ rs) = insert_by-Sorted r (order_by by_eligible_at rs) (order_by-Sorted rs)

-- The row is the first in time of the rows.
abbrev IsFirst : Row → List Row → Type 0
IsFirst r rows = NotBefore r rows × (any (λ x. x.eligible_at == r.eligible_at) rows ≡ true)

attained :
    (r : Row) (rows rest : List Row)
    → order_by by_eligible_at rows ≡ r ∷ rest
    → any (λ x. x.eligible_at == r.eligible_at) rows ≡ true
attained r rows rest e =
    let p = λ (x : Row). x.eligible_at == r.eligible_at in
    elim (Bool-cases (any p rows)) [
      | inl h ↦ h
      | inr h ↦
          let a = All-order_by by_eligible_at (λ x. p x ≡ false) rows (any-All p rows h) in
          let b : All (λ x. p x ≡ false) (r ∷ rest) = rw e at a in absurd (ground (arith, b.0))
    ]

IsFirst-of :
    (rows sorted : List Row)
    → order_by by_eligible_at rows ≡ sorted
    → any (λ r. true) rows ≡ true
    → (r : Row) × (head_row sorted ≡ some r) × IsFirst r rows
IsFirst-of rows [] e h =
    let none_there = was_ordered by_eligible_at (λ x. true ≡ false) rows (rw e tt) in
    absurd (ground (arith, All-any (λ r. true) rows none_there))
IsFirst-of rows (r ∷ rest) e h =
    let s : Sorted (r ∷ rest) = rw e at (order_by-Sorted rows) in
    (
      r,
      refl,
      (
        was_ordered by_eligible_at (λ x. r.eligible_at ≤ x.eligible_at) rows
            (rw e ((ground arith), s.0)),
        attained r rows rest e,
      ),
    )

abbrev waiting_in : Channel → Row → Bool
unfolding waits_in
waiting_in channel r = live r && waits_in channel r

-- The waiting row that is due longest of its channel.
pub IsOldest : Store → OldestPending → Type 0
IsOldest s o =
    All (λ x. o.eligible_at ≤ x.eligible_at) (select_rows (waits_in o.channel) s)
    × (any (λ x. x.eligible_at == o.eligible_at) (select_rows (waits_in o.channel) s) ≡ true)

-- Every statement sees the one table, and none fails.
abbrev pub at_once : Store → Reads
at_once s = record {
  counted = s;
  count_fault = none;
  listed = s;
  list_fault = none;
  read = λ c. s;
  read_fault = λ c. none;
}

module _ (s : Store) where
  unfoldable pub HasWaiting : Channel → Type 0
  HasWaiting c = any (λ r. true) (select_rows (waits_in c) s) ≡ true

  oldest_row-ok :
      (c : Channel)
      → HasWaiting c
      → (r : Row) × (oldest_row (at_once s) c ≡ ok r) × IsFirst r (select_rows (waits_in c) s)
  unfolding oldest_row HasWaiting
  oldest_row-ok c h =
      let (r, e, f) =
        IsFirst-of (select_rows (waits_in c) s)
          (order_by by_eligible_at (select_rows (waits_in c) s)) refl h in
      (r, (rw e refl), f)

  pub oldest_of-ok :
      (cs : List Channel)
      → All HasWaiting cs
      → (l : List OldestPending) × (oldest_of (at_once s) cs ≡ ok l)
        × All (IsOldest s) l
        × (map (λ o. o.channel) l ≡ cs)
  unfolding oldest_of IsOldest
  oldest_of-ok [] h = ([], refl, tt, refl)
  oldest_of-ok (c ∷ cs) h =
      let (r, e, f) = oldest_row-ok c h.0 in
      let (l, k, a, m) = oldest_of-ok cs h.1 in
      (record { channel = c; eligible_at = r.eligible_at } ∷ l, rw (e, k) refl, (f, a), rw m refl)
