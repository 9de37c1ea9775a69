-- ===== src/Repo/Claim.antt =====
-- The outcomes of Claim, as an induction rule: it changes nothing, buries an exhausted row, or
-- leases an eligible one.
use kaftar.Prelude.{
  ℕ, ◌≡◌, String, Option, none, some, List, [], ◌∷◌, Bool, true, false, ◌&&◌, not, is_some, arith,
  All, All-filter, All-filter_test, Option-cases, Bool-cases, inl, inr, filter, subst,
}
use kaftar.Entity.Time.{Time}
use kaftar.Entity.Channel.{Channel}
use kaftar.Entity.Outbox.{Outbox}
use kaftar.Repo.Errors.{Result, ok, err, database, record_not_found}
use kaftar.Repo.Model.{Row, Uuids, outbox_model_to_entity}
use kaftar.Repo.Table.{Store, Tx, select_rows, lock_rows, head_row}
use kaftar.Repo.Delivery.{
  write_row, claim, claim_row, commit_claim, make_dead, take_lease, exhausted, is_open, is_early,
  is_notified,
}
use kaftar.Repo.Keys.{Distinct, Only, Only-All, All-lock_rows}

-- A result that hands out no outbox.
abbrev pub HandsNone : Result (Option Outbox) → Type 0
HandsNone (ok (some o)) = ⊥
HandsNone (ok none) = Unit
HandsNone (err e) = Unit

head_row-All : (P : Row → Type 0) (l : List Row) (r : Row) → head_row l ≡ some r → All P l → P r
head_row-All P [] r e a = cc
head_row-All P (x ∷ l) r e a = subst P (ground arith) a.0

-- The row that Claim looks at.
pub record Notified (tx : Tx) (id : String) (channel : Channel) (row : Row) (s : Store)
    : Type 1 where
  pub matches : is_notified id channel row ≡ true
  pub visible : is_some row.deleted_at ≡ false
  pub only : Only row s
  pub among : (P : Row → Type 0) → All P s → P row

Notified-head :
    (tx : Tx) (id : String) (channel : Channel) (row : Row) (s : Store)
    → Distinct s
    → head_row (lock_rows tx (select_rows (is_notified id channel) s)) ≡ some row
    → Notified tx id channel row s
unfolding select_rows
Notified-head tx id channel row s d e = record {
  matches =
      at (λ r. is_notified id channel r ≡ true) (All-filter_test _ test (λ r h. ground arith) s);
  visible = at (λ r. is_some r.deleted_at ≡ false) (All-filter_test _ test (λ r h. ground arith) s);
  only = at (λ r. Only r s) (All-filter (λ r. Only r s) test s (Only-All s d));
  among = λ P a. at P (All-filter P test s a);
}
  where
    test : Row → Bool
    test r = not (is_some r.deleted_at) && is_notified id channel r

    at : (P : Row → Type 0) → All P (filter test s) → P row
    at P a = head_row-All P _ row e (All-lock_rows tx P _ a)

module _ (uuids : Uuids) (tx : Tx) (id : String) (channel : Channel) (now : Time) (lease : ℕ)
    (token : String) (s : Store) (P : Result (Option Outbox) × Store → Type 0)
    (unchanged : (r : Result (Option Outbox)) → HandsNone r → P (r, s))
    (buries : (row : Row)
      → Notified tx id channel row s
      → is_open row.state ≡ true
      → exhausted row now ≡ true
      → P (ok none, write_row tx (make_dead row) s))
    (leases : (row : Row)
      → Notified tx id channel row s
      → is_open row.state ≡ true
      → is_early row.next_retry_at now ≡ false
      → exhausted row now ≡ false
      → P (
        ok (some (outbox_model_to_entity uuids (take_lease now lease token row))),
        write_row tx (take_lease now lease token row) s,
      )) where
  commit_cases :
      (row : Row) (o : Option Outbox)
      → P (ok o, write_row tx row s)
      → P (commit_claim uuids tx row o s)
  unfolding commit_claim
  commit_cases row o h = elim (Option-cases (tx.write_fault row.id)) [
    | inr (x, e) ↦ rw (e, commit_claim) (unchanged (err (database x)) tt)
    | inl e ↦
        rw (e, commit_claim)
          (elim (Option-cases tx.commit_fault) [
            | inr (x, f) ↦ rw f (unchanged (err (database x)) tt)
            | inl f ↦ rw f h
          ])
  ]

  claim_row_cases :
      (row : Row) → Notified tx id channel row s → P (claim_row uuids tx now lease token row s)
  unfolding claim_row
  claim_row_cases row n = elim (Bool-cases (is_open row.state)) [
    | inr shut ↦ rw (shut, claim_row) (unchanged (ok none) tt)
    | inl opened ↦
        rw (opened, claim_row)
          (elim (Bool-cases (is_early row.next_retry_at now)) [
            | inl early ↦ rw early (unchanged (ok none) tt)
            | inr due ↦ rw due (elim (Bool-cases (exhausted row now)) [
              | inl over ↦ rw over (commit_cases (make_dead row) none (buries row n opened over))
              | inr fits ↦
                  rw fits
                    (commit_cases (take_lease now lease token row) _ (leases row n opened due fits))
            ])
          ])
  ]

  pub claim_cases : Distinct s → P (claim uuids tx id channel now lease token s)
  unfolding claim
  claim_cases d = elim (Option-cases tx.read_fault) [
    | inr (x, e) ↦ rw (e, claim) (unchanged (err (database x)) tt)
    | inl e ↦
        rw (e, claim)
          (elim (Option-cases (head_row (lock_rows tx (select_rows (is_notified id channel) s)))) [
            | inl missing ↦ rw missing (unchanged (err record_not_found) tt)
            | inr (row, found) ↦
                rw found (claim_row_cases row (Notified-head tx id channel row s d found))
          ])
  ]
