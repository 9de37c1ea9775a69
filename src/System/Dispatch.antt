-- ===== src/System/Dispatch.antt =====
-- ReserveDispatch and Claim keep what Preserve.antt lists.
use kaftar.Prelude.{ℕ, ◌≡◌, ◌≢◌, refl, String, Option, none, some, true, false, arith, All, All-of}
use kaftar.Entity.Time.{Time}
use kaftar.Entity.Outbox.{Outbox}
use kaftar.Entity.State.{is_sending}
use kaftar.Repo.Errors
use kaftar.Repo.Model.{Row, Uuids, outbox_model_to_entity}
use kaftar.Repo.Table.{Store, Tx}
use kaftar.Repo.Delivery.{
  transition_values, reserve_row, write_row, is_due, reserve_dispatch, claim, make_dead, take_lease,
  exhausted, is_open,
}
use kaftar.Repo.Grows.{All-update_rows}
use kaftar.Repo.Keys.{Distinct}
use kaftar.Entity.Channel.{Channel}
use kaftar.Repo.Claim.{HandsNone, claim_cases}
use kaftar.Repo.Lifecycle.{sending-Reach, is_terminal, dead-Reach, transition_values-Evolves}
use kaftar.Repo.Reserve.{reserve_dispatch_induction, id-reserve_row}
use kaftar.Repo.Sound.{
  reserve_row-IsSound, reserve_row-Evolves, take_lease-IsSound, make_dead-IsSound,
}
use kaftar.System.Preserve.{
  Agrees, Preserves, Preserves-refl, Preserves-trans, Writes, write_row-Preserves,
}

abbrev pub AnyClaim : Outbox → Type 0
AnyClaim o = Unit

-- A row that the relay wrote is not under a lease.
reserved-unleased :
    (c : String) (now : Time) (interval : ℕ) (r : Row)
    → is_due c now r ≡ true
    → is_sending (reserve_row now interval r).0.state ≡ false
unfolding reserve_row is_due
reserved-unleased c now interval r h = ground arith

Writes-reserve_row :
    (tx : Tx) (c : String) (now : Time) (interval : ℕ) (r : Row)
    → is_due c now r ≡ true
    → Writes AnyClaim (reserve_row now interval r).0 r tx
Writes-reserve_row tx c now interval r h = record {
  id = id-reserve_row now interval r;
  evolves = reserve_row-Evolves tx.clock now interval c r h;
  sound = reserve_row-IsSound tx.clock now interval c r h;
  agree = λ o k a live. unfold transition_values in cc (reserved-unleased c now interval r h, live);
}

module _ (uuids : Uuids) (tx : Tx) where
  pub reserve_dispatch-Preserves :
      (c : String) (now : Time) (interval limit : ℕ) (s : Store)
      → Distinct s
      → Preserves AnyClaim s (reserve_dispatch uuids tx c now interval limit s).1
  reserve_dispatch-Preserves c now interval =
      reserve_dispatch_induction uuids tx c now interval (Preserves AnyClaim)
        (Preserves-refl AnyClaim) (Preserves-trans AnyClaim)
        (λ r s due only.
          write_row-Preserves AnyClaim tx (reserve_row now interval r).0 r
            (Writes-reserve_row tx c now interval r due) s only)

-- The claims that a token is none of.
abbrev pub Elsewhere : String → Outbox → Type 0
Elsewhere token o = token ≢ o.lease_token

open_live : (r : Row) → is_open r.state ≡ true → is_terminal r.state ≡ false
open_live r h = ground arith

Writes-make_dead :
    (tx : Tx) (K : Outbox → Type 0) (r : Row) → is_open r.state ≡ true → Writes K (make_dead r) r tx
Writes-make_dead tx K r h = record {
  id = unfold make_dead in refl;
  evolves =
      transition_values-Evolves (make_dead r) r tx.clock (open_live r h)
        (unfold make_dead in omega arith) (unfold make_dead in dead-Reach r.state h);
  sound = make_dead-IsSound tx.clock tx.clock r;
  agree = λ o k a live. unfold transition_values make_dead in cc live;
}

Writes-take_lease :
    (tx : Tx) (now : Time) (lease : ℕ) (token : String) (r : Row)
    → is_open r.state ≡ true
    → exhausted r now ≡ false
    → Writes (Elsewhere token) (take_lease now lease token r) r tx
Writes-take_lease tx now lease token r h fits = record {
  id = unfold take_lease in refl;
  evolves =
      transition_values-Evolves (take_lease now lease token r) r tx.clock (open_live r h)
        (unfold take_lease in omega arith) (unfold take_lease in sending-Reach r.state h);
  sound = λ _. take_lease-IsSound tx.clock now lease token r fits;
  agree = λ o k a live held. unfold transition_values take_lease in absurd (k held);
}

-- What a claim hands out, as far as rows are held against it.
abbrev pub HandsAgreed : Errors.Result (Option Outbox) → Store → Type 0
HandsAgreed (Errors.ok (some o)) s = All (Agrees o) s
HandsAgreed (Errors.ok none) s = Unit
HandsAgreed (Errors.err e) s = Unit

module _ (uuids : Uuids) (tx : Tx) (id : String) (channel : Channel) (now : Time) (lease : ℕ)
    (token : String) (s : Store) (unheld : All (λ r. r.lease_token ≢ token) s)
    (d : Distinct s) where
  Agrees-new :
      (row : Row) (l : Store)
      → All (λ r. r.lease_token ≢ token) l
      → All
          (Agrees (outbox_model_to_entity uuids (take_lease now lease token row)))
          (write_row tx (take_lease now lease token row) l)
  unfolding write_row take_lease outbox_model_to_entity
  Agrees-new row l =
      All-update_rows (λ r. r.lease_token ≢ token)
        (Agrees (outbox_model_to_entity uuids (take_lease now lease token row))) _ _ l
        (All-of _ (λ r k live held. absurd (k held)) l)
        (All-of _ (λ r hit k live held. (refl, refl)) l)

  hands_none : (r : Errors.Result (Option Outbox)) → HandsNone r → HandsAgreed r s
  hands_none (Errors.ok (some o)) h = absurd h
  hands_none (Errors.ok none) h = tt
  hands_none (Errors.err e) h = tt

  pub claim-Preserves :
      let (result, t) = claim uuids tx id channel now lease token s in
      Preserves (Elsewhere token) s t × HandsAgreed result t
  claim-Preserves =
      claim_cases uuids tx id channel now lease token s
        (λ (result, t). Preserves (Elsewhere token) s t × HandsAgreed result t)
        (λ r h. (Preserves-refl (Elsewhere token) s, hands_none r h))
        (λ row n opened over. (
          write_row-Preserves (Elsewhere token) tx (make_dead row) row
              (Writes-make_dead tx (Elsewhere token) row opened) s n.only,
          tt,
        ))
        (λ row n opened due fits. (
          write_row-Preserves (Elsewhere token) tx (take_lease now lease token row) row
              (Writes-take_lease tx now lease token row opened fits) s n.only,
          Agrees-new row s unheld,
        ))
        d
