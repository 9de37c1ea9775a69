-- ===== src/System.antt =====
-- The service's processes over one outbox table: submissions, the relay, the consumers and their
-- provider calls, in any interleaving. Each repository call is one transaction. `claims` holds
-- every outbox that Claim ever handed out; a worker may complete any of them at any later time, or
-- never (a crash), or more than once.
mod Preserve
mod Dispatch
mod Complete
pub mod Submit
pub mod Tokens
pub mod Invariant
pub mod Tally
pub mod Attempts
pub mod Fencing
pub mod Worker
pub mod Consuming
pub mod Relaying
pub mod Retries
use kaftar.Prelude.{ℕ, String, ◌≡◌, ◌≢◌, List, [], ◌∷◌, Option, none, some, All}
use mathlib.Core.List.{Memᴰ}
use kaftar.Entity.Time.{Time}
use kaftar.Entity.Channel.{Channel}
use kaftar.Entity.Outbox.{Outbox, Uuid}
use kaftar.Entity.Message.{Message}
use kaftar.Repo.Errors
use kaftar.Repo.Table.{Store, Tx}
use kaftar.Repo.Delivery.{reserve_dispatch, claim, finish}
use kaftar.Service.Accept.{Service, SendOptions, accept}
use kaftar.Service.Settle.{Attempt, settle}

pub record System : Type 0 where
  pub store : Store
  pub claims : List Outbox

abbrev pub with_claim : Errors.Result (Option Outbox) → List Outbox → List Outbox
with_claim (Errors.ok (some o)) claims = o ∷ claims
with_claim (Errors.ok none) claims = claims
with_claim (Errors.err e) claims = claims

-- A token that uuid.NewString has not returned before.
pub record IsFresh (token : String) (sys : System) : Type 0 where
  pub named : token ≢ ""
  pub unclaimed : All (λ o. token ≢ o.lease_token) sys.claims
  pub unheld : All (λ r. r.lease_token ≢ token) sys.store

pub data Step (svc : Service) : System → System → Type 0 where
  submits :
      {sys : System} (tx : Tx) (generated : Errors.Result Uuid) (now : Time) (message : Message)
      (options : SendOptions)
      → Step svc sys
          (record sys { store = (accept svc tx generated now message options sys.store).1 })
  dispatches :
      {sys : System} (tx : Tx) (channel : Channel) (now : Time) (interval limit : ℕ)
      → Step svc sys (record sys {
        store = (reserve_dispatch svc.uuids tx channel now interval limit sys.store).1;
      })
  takes :
      {sys : System} (tx : Tx) (id : String) (channel : Channel) (now : Time) (lease : ℕ)
      (token : String)
      → IsFresh token sys
      → Step svc sys (record {
        store = (claim svc.uuids tx id channel now lease token sys.store).1;
        claims = with_claim (claim svc.uuids tx id channel now lease token sys.store).0 sys.claims;
      })
  completes :
      {sys : System} (tx : Tx) (o : Outbox) (attempt : Attempt) (now : Time) (draw : ℕ)
      → Memᴰ o sys.claims
      → Step svc sys
          (record sys { store = (finish svc.uuids tx (settle attempt now draw o) now sys.store).1 })

pub data Run (svc : Service) (start : System) : System → Type 0 where
  here : Run svc start start
  next : {s t : System} → Run svc start s → Step svc s t → Run svc start t

abbrev pub empty : System
empty = record { store = []; claims = [] }
