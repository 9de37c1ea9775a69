-- ===== src/Repo/Keys.antt =====
-- The primary key: no two rows of a table have one id, and an update by id meets one row.
use kaftar.Prelude.{
  ℕ, zero, suc, ◌≡◌, ◌≢◌, refl, sym, List, [], ◌∷◌, Bool, not, arith, All, All-filter, All-take,
  All-mono, filter, take, Bool-cases, inl, inr,
}
use kaftar.Repo.Model.{Row}
use kaftar.Repo.Table.{Store, Tx, lock_rows, insert_by, order_by}

abbrev pub Distinct : List Row → Type 0
Distinct [] = Unit
Distinct (r ∷ rs) = All (λ x. x.id ≢ r.id) rs × Distinct rs

-- The only row of the table with the id of `r` is `r` itself.
abbrev pub Only : Row → Store → Type 0
Only r = All (λ x. x.id ≡ r.id → x ≡ r)

Only-head : (r : Row) (s : Store) → All (λ x. x.id ≢ r.id) s → Only r s
Only-head r s = All-mono (λ x h e. absurd (h e)) s

Only-tail :
    (r : Row) (s rs : Store)
    → All (λ x. x.id ≢ r.id) rs
    → All (λ x. Only x s) rs
    → All (λ x. Only x (r ∷ s)) rs
Only-tail r s [] h a = tt
Only-tail r s (x ∷ rs) h a = ((λ e. absurd (h.0 (sym e)), a.0), Only-tail r s rs h.1 a.1)

pub Only-All : (s : Store) → Distinct s → All (λ r. Only r s) s
Only-All [] d = tt
Only-All (r ∷ s) d = ((λ _. refl, Only-head r s d.0), Only-tail r s s d.0 (Only-All s d.1))

pub Distinct-filter : (p : Row → Bool) (s : Store) → Distinct s → Distinct (filter p s)
unfolding filter
Distinct-filter p [] d = tt
Distinct-filter p (r ∷ s) d =
    ground (arith, All-filter (λ x. x.id ≢ r.id) p s d.0, Distinct-filter p s d.1)

pub Distinct-take : (n : ℕ) (s : Store) → Distinct s → Distinct (take n s)
Distinct-take zero s d = tt
Distinct-take (suc n) [] d = tt
Distinct-take (suc n) (r ∷ s) d = (All-take (λ x. x.id ≢ r.id) n s d.0, Distinct-take n s d.1)

module _ (le : Row → Row → Bool) where
  pub All-insert_by :
      (P : Row → Type 0) (r : Row) (s : Store) → P r → All P s → All P (insert_by le r s)
  unfolding insert_by
  All-insert_by P r [] h a = (h, tt)
  All-insert_by P r (x ∷ s) h a = ground (arith, All-insert_by P r s h a.1)

  pub All-order_by : (P : Row → Type 0) (s : Store) → All P s → All P (order_by le s)
  unfolding order_by
  All-order_by P [] a = tt
  All-order_by P (r ∷ s) a = All-insert_by P r (order_by le s) a.0 (All-order_by P s a.1)

  module _ (P : Row → Type 0) where
    pub was_inserted : (r : Row) (rows : List Row) → All P (insert_by le r rows) → P r × All P rows
    unfolding insert_by
    was_inserted r [] a = (a.0, tt)
    was_inserted r (x ∷ rows) a = elim (Bool-cases (le r x)) [
      | inl h ↦ let b : All P (r ∷ x ∷ rows) = rw h at a in (b.0, b.1)
      | inr h ↦
          let b : P x × All P (insert_by le r rows) = rw h at a in
          let (p, c) = was_inserted r rows b.1 in (p, (b.0, c))
    ]

    pub was_ordered : (rows : List Row) → All P (order_by le rows) → All P rows
    unfolding order_by
    was_ordered [] a = tt
    was_ordered (r ∷ rows) a =
        let (p, b) = was_inserted r (order_by le rows) a in (p, was_ordered rows b)

  Distinct-insert_by :
      (r : Row) (s : Store) → All (λ x. x.id ≢ r.id) s → Distinct s → Distinct (insert_by le r s)
  unfolding insert_by
  Distinct-insert_by r [] h d = (tt, tt)
  Distinct-insert_by r (x ∷ s) h d = ground (
    arith,
    All-insert_by (λ y. y.id ≢ x.id) r s (λ e. h.0 (sym e)) d.0,
    Distinct-insert_by r s h.1 d.1,
  )

  pub Distinct-order_by : (s : Store) → Distinct s → Distinct (order_by le s)
  unfolding order_by
  Distinct-order_by [] d = tt
  Distinct-order_by (r ∷ s) d =
      Distinct-insert_by r (order_by le s) (All-order_by (λ x. x.id ≢ r.id) s d.0)
        (Distinct-order_by s d.1)

pub All-lock_rows : (tx : Tx) (P : Row → Type 0) (s : Store) → All P s → All P (lock_rows tx s)
unfolding lock_rows
All-lock_rows tx P s a = ground (arith, All-filter P (λ r. not (tx.locked r)) s a)

pub Distinct-lock_rows : (tx : Tx) (s : Store) → Distinct s → Distinct (lock_rows tx s)
unfolding lock_rows
Distinct-lock_rows tx s d = ground (arith, Distinct-filter (λ r. not (tx.locked r)) s d)
