-- ===== src/System/Fencing.antt =====
-- Leases: one outbox of a row is out at a time, and a worker that lost its lease writes nothing.
use kaftar.Prelude.{
  ℕ, ◌<◌, ◌≡◌, refl, ◌∙◌, ap, String, Option, none, some, [], ◌∷◌, Bool, true, false, not, is_some,
  ◌&&◌, if◌then◌else◌, All, arith, str_eq, str_eq_iff, filter, Bool-cases, inl, inr,
}
use mathlib.Core.List.{Memᴰ}
use kaftar.Entity.Time.{Time}
use kaftar.Entity.Channel.{Channel}
use kaftar.Entity.Outbox.{Outbox}
use kaftar.Repo.Errors
use kaftar.Repo.Errors.{lease_lost}
use kaftar.Repo.Model.{Row, Uuids}
use kaftar.Repo.Table.{Store, Tx, select_rows, update_rows}
use kaftar.Repo.Delivery.{
  claim, finish, write_row, take_lease, transition_values, holds_lease, finished_row, is_open,
  is_notified,
}
use kaftar.Repo.Claim.{HandsNone, claim_cases}
use kaftar.Repo.Keys.{Distinct, Only}
use kaftar.Service.Accept.{Service}
use kaftar.Service.Settle.{Attempt, settle}
use kaftar.System.{System}
use kaftar.System.Complete.{Settled, settle-Settled, sending_of, token_of}
use kaftar.System.Preserve.{Agrees, Distinct-update_rows}
use kaftar.System.Invariant.{Inv, All-Memᴰ}

select_none : (p : Row → Bool) (s : Store) → All (λ r. p r ≡ false) s → select_rows p s ≡ []
unfolding select_rows filter
select_none p [] a = refl
select_none p (r ∷ s) a = ground (arith, a.0, select_none p s a.1)

update_none :
    (p : Row → Bool) (f : Row → Row) (s : Store) → All (λ r. p r ≡ false) s → update_rows p f s ≡ s
unfolding update_rows
update_none p f [] a = refl
update_none p f (r ∷ s) a = ground (arith, a.0, update_none p f s a.1)

-- Finish without a lease changes nothing, and says so.
finish_unheld :
    (uuids : Uuids) (tx : Tx) (o : Outbox) (now : Time) (s : Store)
    → tx.write_fault (uuids.print o.id) ≡ none
    → All (λ r. holds_lease uuids o now r ≡ false) s
    → finish uuids tx o now s ≡ (some lease_lost, s)
unfolding finish
finish_unheld uuids tx o now s e a =
    rw (e, finish)
      (rw (select_none (holds_lease uuids o now) s a) (
        rw (
          update_none (holds_lease uuids o now)
            (transition_values (finished_row uuids o now) tx.clock) s a)))

module _ (uuids : Uuids) (tx : Tx) (now : Time) (o p : Outbox) (st : Settled o p) where
  id_of : (r : Row) → holds_lease uuids p now r ≡ true → r.id ≡ uuids.print o.id
  unfolding holds_lease
  id_of r h = (str_eq_iff r.id (uuids.print p.id)).0 (ground arith) ∙ ap uuids.print st.id

  superseded :
      (r : Row)
      → Agrees o r
      → (r.id ≡ uuids.print o.id → o.attempts < r.attempts)
      → holds_lease uuids p now r ≡ false
  superseded r a later = elim (Bool-cases (holds_lease uuids p now r)) [
    | inr free ↦ free
    | inl held ↦ absurd (ended held)
  ]
    where
      ended : holds_lease uuids p now r ≡ true → ⊥
      ended held = omega (
        arith,
        later (id_of r held),
        (a (sending_of uuids tx now o p st r held) (token_of uuids tx now o p st r held)).0,
      )

  All-superseded :
      (s : Store)
      → All (Agrees o) s
      → All (λ r. r.id ≡ uuids.print o.id → o.attempts < r.attempts) s
      → All (λ r. holds_lease uuids p now r ≡ false) s
  All-superseded [] a l = tt
  All-superseded (r ∷ s) a l = (superseded r a.0 l.0, All-superseded s a.1 l.1)

-- A worker whose message was claimed again since is fenced off: in every system that satisfies the
-- invariant, completing its claim with any outcome at any time answers that the lease is lost and
-- changes no row.
pub stale_completion :
    (svc : Service) (sys : System) (tx : Tx) (o : Outbox) (attempt : Attempt) (now : Time)
    (draw : ℕ)
    → Inv sys
    → Memᴰ o sys.claims
    → All (λ r. r.id ≡ svc.uuids.print o.id → o.attempts < r.attempts) sys.store
    → tx.write_fault (svc.uuids.print o.id) ≡ none
    → finish svc.uuids tx (settle attempt now draw o) now sys.store ≡ (some lease_lost, sys.store)
stale_completion svc sys tx o attempt now draw i m later e =
    let p = settle attempt now draw o in
    let st = settle-Settled attempt now draw o in
    finish_unheld svc.uuids tx p now sys.store
      (ap (λ k. tx.write_fault (svc.uuids.print k)) st.id ∙ e)
      (All-superseded svc.uuids tx now o p st sys.store
        (All-Memᴰ (λ c. All (Agrees c) sys.store) m i.agree) later)

module _ (tx : Tx) (id : String) (channel : Channel) (now : Time) (lease : ℕ) (token : String)
    (row : Row) (named : row.id ≡ id) (visible : is_some row.deleted_at ≡ false) where
  abbrev write : Row → Row
  write x =
      if not (is_some x.deleted_at) && str_eq x.id (take_lease now lease token row).id
      then transition_values (take_lease now lease token row) tx.clock x
      else x

  shut_one :
      (x : Row)
      → (x.id ≡ row.id → x ≡ row)
      → is_notified id channel (write x) ≡ true
      → is_open (write x).state ≡ false
  unfolding take_lease transition_values
  shut_one x o h = elim (Bool-cases (str_eq x.id row.id)) [
    | inl hit ↦
        ground (arith, ap (λ (r : Row). is_some r.deleted_at) (o ((str_eq_iff x.id row.id).0 hit)))
    | inr miss ↦ ground (arith, str_eq_iff x.id id, str_eq_iff x.id row.id)
  ]

  shut-All :
      (s : Store)
      → Only row s
      → All
          (λ r. is_notified id channel r ≡ true → is_open r.state ≡ false)
          (write_row tx (take_lease now lease token row) s)
  unfolding write_row
  shut-All [] o = tt
  shut-All (x ∷ s) o = (shut_one x o.0, shut-All s o.1)

-- A result that hands out an outbox.
abbrev pub HandsOne : Errors.Result (Option Outbox) → Type 0
HandsOne (Errors.ok (some o)) = Unit
HandsOne (Errors.ok none) = ⊥
HandsOne (Errors.err e) = ⊥

hands_not_both : (r : Errors.Result (Option Outbox)) → HandsNone r → HandsOne r → ⊥
hands_not_both (Errors.ok (some o)) n h = n
hands_not_both (Errors.ok none) n h = h
hands_not_both (Errors.err e) n h = h

module _ (uuids : Uuids) (id : String) (channel : Channel) where
  Distinct-write_row : (tx : Tx) (v : Row) (s : Store) → Distinct s → Distinct (write_row tx v s)
  unfolding write_row
  Distinct-write_row tx v s =
      Distinct-update_rows (λ x. str_eq x.id v.id) (transition_values v tx.clock)
        (λ x. unfold transition_values in refl) s

  refuses_open :
      (tx : Tx) (now : Time) (lease : ℕ) (token : String) (t : Store)
      → Distinct t
      → All (λ r. is_notified id channel r ≡ true → is_open r.state ≡ false) t
      → HandsNone (claim uuids tx id channel now lease token t).0
  refuses_open tx now lease token t d shut =
      claim_cases uuids tx id channel now lease token t (λ r. HandsNone r.0) (λ r h. h)
        (λ row n opened over. tt)
        (λ row n opened due fits. cc (
          opened,
          n.among (λ r. is_notified id channel r ≡ true → is_open r.state ≡ false) shut n.matches,
        ))
        d

  -- Over a table with distinct IDs, if a claim hands out a message, a second claim of it
  -- directly afterwards hands out nothing, at whatever time and with whatever lease, token and
  -- faults.
  pub claim_exclusive :
      (tx tx' : Tx) (now now' : Time) (lease lease' : ℕ) (token token' : String) (s : Store)
      → Distinct s
      → HandsOne (claim uuids tx id channel now lease token s).0
      → HandsNone
          (claim uuids tx' id channel now' lease' token'
            (claim uuids tx id channel now lease token s).1).0
  claim_exclusive tx tx' now now' lease lease' token token' s d =
      claim_cases uuids tx id channel now lease token s
        (λ r. HandsOne r.0 → HandsNone (claim uuids tx' id channel now' lease' token' r.1).0)
        (λ r n h. absurd (hands_not_both r n h)) (λ row n opened over h. absurd h)
        (λ row n opened due fits h.
          refuses_open tx' now' lease' token' _
            (Distinct-write_row tx (take_lease now lease token row) s d)
            (shut-All tx id channel now lease token row (notified_id row n.matches) n.visible s
              n.only))
        d
    where
      notified_id : (row : Row) → is_notified id channel row ≡ true → row.id ≡ id
      notified_id row h = (str_eq_iff row.id id).0 (ground arith)
