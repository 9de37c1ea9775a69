-- ===== src/System/Worker.antt =====
-- handleDelivery as a run of the system: what it does to the table is a sequence of the system's steps.
use kaftar.Prelude.{
  String, ◌≡◌, refl, Option, none, some, List, ◌∷◌, Bool, true, false, Option-cases, inl, inr,
  if◌then◌else◌, ◌==◌,
}
use mathlib.Core.List.{Memᴰ}
use kaftar.Entity.Channel.{Channel}
use kaftar.Entity.Outbox.{Outbox, Uuid, uuid_nil}
use kaftar.Entity.Message.{Bytes, Message, unmarshal_message}
use kaftar.Repo.Errors
use kaftar.Repo.Errors.{RepoError}
use kaftar.Repo.Table.{Store}
use kaftar.Repo.Delivery.{claim, finish}
use kaftar.Service.Errors.{Result, ok, err}
use kaftar.Service.Accept.{Service, SendOptions, accept}
use kaftar.Service.Settle.{Attempt, settle}
use kaftar.Service.Deliver.{
  World, Delivery, handle_delivery, deliver_direct, deliver_notified, deliver_result,
  deliver_claimed, settle_submission, attempt_send, envelope_channel, envelope_options, lease_time,
}
use kaftar.System.{System, Run, here, next, submits, takes, completes, IsFresh, with_claim}

module _ (svc : Service) (world : World) where
  submission_store :
      (channel : Channel) (r : Result String) (s : Store)
      → (settle_submission svc world channel (r, s)).store ≡ s
  unfolding settle_submission
  submission_store channel (ok id) s = refl
  submission_store channel (err e) s = refl

  claimed_store :
      (channel : Channel) (o : Outbox) (s : Store)
      → (deliver_claimed svc world channel o s).store
        ≡ (finish svc.uuids world.finish_tx
            (settle (attempt_send svc world o) world.finished_at world.draw o)
            world.finished_at
            s).1
  unfolding deliver_claimed
  claimed_store channel o s =
      elim (Option-cases
        (finish svc.uuids world.finish_tx
          (settle (attempt_send svc world o) world.finished_at world.draw o) world.finished_at
          s).0) [ inl n ↦ rw (n, deliver_claimed) refl | inr (e, n) ↦ rw (n, deliver_claimed) refl ]

-- Beside the run, Q holds of the system at its end, if it holds of the system at its start and each
-- of the calls keeps it.
module _ (svc : Service) (world : World) (sys : System) (Q : System → Type 0) (q_here : Q sys)
    (q_submits : (message : Message) (options : SendOptions)
      → Q (record sys {
        store =
            (accept svc world.create_tx world.generated world.claimed_at message options
              sys.store).1;
      }))
    (q_takes : (id : String) (channel : Channel)
      → Q (record {
        store =
            (claim svc.uuids world.claim_tx id channel world.claimed_at lease_time world.token
              sys.store).1;
        claims =
            with_claim
              (claim svc.uuids world.claim_tx id channel world.claimed_at lease_time world.token
                sys.store).0
              sys.claims;
      }))
    (q_completes : (s : Store) (claims : List Outbox) (o : Outbox) (attempt : Attempt)
      → Q (record { store = s; claims = claims })
      → Q (record {
        store =
            (finish svc.uuids world.finish_tx
              (settle attempt world.finished_at world.draw o)
              world.finished_at
              s).1;
        claims = claims;
      })) where
  abbrev pub Leads : Store → Type 0
  Leads s =
      (claims : List Outbox) × Run svc sys (record { store = s; claims = claims })
      × Q (record { store = s; claims = claims })

  direct-Leads :
      (channel : Channel) (envelope : Outbox)
      → Leads (deliver_direct svc world channel envelope sys.store).store
  unfolding deliver_direct
  direct-Leads channel envelope =
      elim (Option-cases
        (unmarshal_message svc.go (envelope_channel envelope channel) envelope.payload)) [
          | inl n ↦ rw (n, deliver_direct) (sys.claims, here, q_here)
          | inr (message, n) ↦
              rw
                (
                  n,
                  deliver_direct,
                  submission_store svc world (envelope_channel envelope channel)
                      (accept svc world.create_tx world.generated world.claimed_at message
                        (envelope_options envelope) sys.store).0
                      (accept svc world.create_tx world.generated world.claimed_at message
                        (envelope_options envelope) sys.store).1,
                )
                (
                  sys.claims,
                  next here (
                      submits world.create_tx world.generated world.claimed_at message
                        (envelope_options envelope)),
                  q_submits message (envelope_options envelope),
                )
        ]

  -- The rest of a delivery whose claim returned r.
  result-Leads :
      (channel : Channel) (r : Errors.Result (Option Outbox)) (s : Store)
      → Run svc sys (record { store = s; claims = with_claim r sys.claims })
      → Q (record { store = s; claims = with_claim r sys.claims })
      → Leads (deliver_result svc world channel (r, s)).store
  unfolding deliver_result
  result-Leads channel (Errors.err e) s run q = (sys.claims, run, q)
  result-Leads channel (Errors.ok none) s run q = (sys.claims, run, q)
  result-Leads channel (Errors.ok (some o)) s run q = rw (claimed_store svc world channel o s) (
    o ∷ sys.claims,
    next run (
        completes world.finish_tx o (attempt_send svc world o) world.finished_at world.draw
          (Memᴰ.head refl)),
    q_completes s (o ∷ sys.claims) o (attempt_send svc world o) q,
  )

  notified-Leads :
      (channel : Channel) (id : Uuid)
      → IsFresh world.token sys
      → Leads (deliver_notified svc world channel id sys.store).store
  unfolding deliver_notified
  notified-Leads channel id fresh =
      result-Leads channel _ _
        (next here (
          takes world.claim_tx (svc.uuids.print id) channel world.claimed_at lease_time world.token
            fresh))
        (q_takes (svc.uuids.print id) channel)

  Leads-if :
      (b : Bool) (x y : Delivery) → Leads x.store → Leads y.store → Leads (if b then x else y).store
  Leads-if true x y p q = p
  Leads-if false x y p q = q

  pub handle_delivery-Leads :
      (channel : Channel) (body : Bytes)
      → IsFresh world.token sys
      → Leads (handle_delivery svc world channel body sys.store).store
  unfolding handle_delivery
  handle_delivery-Leads channel body fresh =
      Leads-if svc.stopping _ _ (sys.claims, here, q_here)
        (elim (Option-cases (world.decode_envelope body)) [
          | inl n ↦ rw (n) (sys.claims, here, q_here)
          | inr (envelope, n) ↦ rw (n) (
              Leads-if (envelope.id == uuid_nil) _ _ (direct-Leads channel envelope)
                (notified-Leads channel envelope.id fresh))
        ])

-- A run from the system ends with this table, and with some claims.
abbrev pub Reaches : Service → System → Store → Type 0
Reaches svc sys s = (claims : List Outbox) × Run svc sys (record { store = s; claims = claims })

module _ (svc : Service) (world : World) (sys : System) where
  -- With a fresh lease token, whatever the broker delivers, and whatever the database and the
  -- provider do, the table that handleDelivery leaves is reached by a run of the system.
  pub handle_delivery-Run :
      (channel : Channel) (body : Bytes)
      → IsFresh world.token sys
      → Reaches svc sys (handle_delivery svc world channel body sys.store).store
  handle_delivery-Run channel body fresh =
      let (claims, run, q) =
        handle_delivery-Leads svc world sys (λ s. Unit) tt (λ m o. tt) (λ i c. tt)
          (λ s cs o a q. tt) channel body fresh in
      (claims, run)
