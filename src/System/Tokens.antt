-- ===== src/System/Tokens.antt =====
-- Lease tokens: a token that nobody has seen stays so while others submit, claim and finish.
use kaftar.Prelude.{
  ℕ, ◌≡◌, ◌≢◌, sym, ◌∙◌, true, String, Option, none, some, List, [], ◌∷◌, Bool, All, All-append,
  arith,
}
use kaftar.Entity.Time.{Time}
use kaftar.Entity.Channel.{Channel}
use kaftar.Entity.Outbox.{Outbox, Uuid}
use kaftar.Entity.Message.{Message}
use kaftar.Repo.Errors
use kaftar.Repo.Model.{Row, Uuids, outbox_model_to_entity}
use kaftar.Repo.Table.{Store, Tx, update_rows}
use kaftar.Repo.Delivery.{
  claim, finish, write_row, take_lease, make_dead, transition_values, holds_lease, finished_row,
}
use kaftar.Repo.Claim.{HandsNone, claim_cases}
use kaftar.Repo.Finish.{finish_store}
use kaftar.Repo.Grows.{All-update_rows}
use kaftar.Repo.Keys.{Distinct}
use kaftar.Service.Accept.{Service, SendOptions, accept}
use kaftar.System.{with_claim}
use kaftar.System.Submit.{Submitted, same, added, accept-Submitted}

module _ (t : String) (named : t ≢ "") where
  abbrev pub Unheld : Store → Type 0
  Unheld s = All (λ r. r.lease_token ≢ t) s

  -- An update that puts another token in its rows.
  update_rows-Unheld :
      (p : Row → Bool) (f : Row → Row) (s : Store)
      → ((r : Row) → (f r).lease_token ≢ t)
      → Unheld s
      → Unheld (update_rows p f s)
  update_rows-Unheld p f s other a =
      All-update_rows (λ r. r.lease_token ≢ t) (λ r. r.lease_token ≢ t) p f s (each s) (hit s) a
    where
      each : (s : Store) → All (λ (r : Row). r.lease_token ≢ t → r.lease_token ≢ t) s
      each [] = tt
      each (r ∷ s) = ((λ h. h), each s)

      hit :
          (s : Store) → All (λ (r : Row). p r ≡ true → r.lease_token ≢ t → (f r).lease_token ≢ t) s
      hit [] = tt
      hit (r ∷ s) = ((λ h k. other r), hit s)

  write_row-Unheld :
      (tx : Tx) (v : Row) (s : Store) → v.lease_token ≢ t → Unheld s → Unheld (write_row tx v s)
  unfolding write_row
  write_row-Unheld tx v s other =
      update_rows-Unheld _ (transition_values v tx.clock) s (λ r. unfold transition_values in other)

  finished_token :
      (uuids : Uuids) (o : Outbox) (now : Time) → (finished_row uuids o now).lease_token ≡ ""
  unfolding finished_row
  finished_token uuids o now = ground arith

  pub finish-Unheld :
      (uuids : Uuids) (tx : Tx) (o : Outbox) (now : Time) (s : Store)
      → Unheld s
      → Unheld (finish uuids tx o now s).1
  finish-Unheld uuids tx o now s a = finish_store uuids tx o now s Unheld a (
      update_rows-Unheld (holds_lease uuids o now)
        (transition_values (finished_row uuids o now) tx.clock) s
        (λ r. unfold transition_values in λ e. named (sym e ∙ finished_token uuids o now)) a)

  pub claim-Unheld :
      (uuids : Uuids) (tx : Tx) (id : String) (channel : Channel) (now : Time) (lease : ℕ)
      (token : String) (s : Store) (claims : List Outbox)
      → t ≢ token
      → Distinct s
      → Unheld s
      → All (λ (o : Outbox). t ≢ o.lease_token) claims
      → Unheld (claim uuids tx id channel now lease token s).1
        × All
            (λ (o : Outbox). t ≢ o.lease_token)
            (with_claim (claim uuids tx id channel now lease token s).0 claims)
  claim-Unheld uuids tx id channel now lease token s claims other d a k =
      claim_cases uuids tx id channel now lease token s
        (λ r. Unheld r.1 × All (λ (o : Outbox). t ≢ o.lease_token) (with_claim r.0 claims))
        (λ r h. (a, kept r h))
        (λ row n opened over.
          (write_row-Unheld tx (make_dead row) s (unfold make_dead in λ e. named (sym e)) a, k))
        (λ row n opened due fits. (
          write_row-Unheld tx (take_lease now lease token row) s
              (unfold take_lease in λ e. other (sym e)) a,
          (unfold outbox_model_to_entity take_lease in other, k),
        ))
        d
    where
      kept :
          (r : Errors.Result (Option Outbox))
          → HandsNone r
          → All (λ (o : Outbox). t ≢ o.lease_token) (with_claim r claims)
      kept (Errors.ok (some o)) h = absurd h
      kept (Errors.ok none) h = k
      kept (Errors.err e) h = k

  pub accept-Unheld :
      (svc : Service) (tx : Tx) (generated : Errors.Result Uuid) (now : Time) (message : Message)
      (options : SendOptions) (s : Store)
      → Unheld s
      → Unheld (accept svc tx generated now message options s).1
  accept-Unheld svc tx generated now message options s a =
      grown _ (accept-Submitted svc tx generated now message options s)
    where
      grown : (s' : Store) → Submitted svc tx s s' → Unheld s'
      grown s' same = a
      grown s' (added row n g e free) =
          All-append (λ r. r.lease_token ≢ t) s (row ∷ []) a
            ((λ h. named (sym h ∙ n.lease_token)), tt)
