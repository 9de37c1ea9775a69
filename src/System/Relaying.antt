-- ===== src/System/Relaying.antt =====
-- The relay as a run of the system.
use kaftar.Prelude.{◌≡◌, refl, Option, none, some, List, [], ◌∷◌, false, Bool-cases, inl, inr}
use kaftar.Entity.Channel.{Channel}
use kaftar.Entity.Outbox.{Outbox}
use kaftar.Repo.Errors.{RepoError}
use kaftar.Repo.Table.{Store}
use kaftar.Repo.Delivery.{reserve_dispatch}
use kaftar.Service.Accept.{Service}
use kaftar.Service.Workers.{Workers}
use kaftar.Service.Relay.{
  RelayWorld, Relayed, Round, publish_reserved, relay_channel, relay_round, relay_rounds, relay,
  relay_interval, relay_limit,
}
use kaftar.System.{System, Run, next, dispatches}

module _ (svc : Service) (world : RelayWorld) where
  reserved_store :
      (c : Channel) (r : (List Outbox × Option RepoError) × Store) (state : Relayed)
      → (publish_reserved svc world c r state).store ≡ r.1
  unfolding publish_reserved
  reserved_store c ((rows, some e), s) state = refl
  reserved_store c ((rows, none), s) state = refl

  module _ (start : System) (claims : List Outbox) where
    channel-Run :
        (c : Channel) (state : Relayed)
        → Run svc start (record { store = state.store; claims = claims })
        → Run svc start
            (record { store = (relay_channel svc world c state).store; claims = claims })
    unfolding relay_channel
    channel-Run c state run =
        rw
          (reserved_store c
            (reserve_dispatch svc.uuids (world.tx c) c (world.clock c) relay_interval relay_limit
              state.store)
            state)
          (next run (dispatches (world.tx c) c (world.clock c) relay_interval relay_limit))

    relay_round-Run :
        (cs : List Channel) (state : Relayed)
        → Run svc start (record { store = state.store; claims = claims })
        → Run svc start (record { store = (relay_round svc world cs state).store; claims = claims })
    unfolding relay_round
    relay_round-Run [] state run = run
    relay_round-Run (c ∷ cs) state run =
        elim (Bool-cases (relay_channel svc world c state).stopped) [
          | inl s ↦ rw s (channel-Run c state run)
          | inr s ↦
              rw s (relay_round-Run cs (relay_channel svc world c state) (channel-Run c state run))
        ]

module _ (svc : Service) (start : System) (claims : List Outbox) where
  relay_rounds-Run :
      (rounds : List Round) (state : Relayed)
      → Run svc start (record { store = state.store; claims = claims })
      → Run svc start (record { store = (relay_rounds svc rounds state).store; claims = claims })
  unfolding relay_rounds
  relay_rounds-Run [] state run = run
  relay_rounds-Run (r ∷ rs) state run =
      let after = relay_round svc r.world r.order state in
      let reached = relay_round-Run svc r.world start claims r.order state run in
      elim (Bool-cases after.stopped) [
        | inl s ↦ rw s reached
        | inr s ↦ elim (Bool-cases r.paused) [
          | inl p ↦ rw (s, p) (relay_rounds-Run rs after reached)
          | inr p ↦ rw (s, p) reached
        ]
      ]

  -- Whatever the database and the broker do in whatever rounds, the table that the relay leaves is
  -- reached from the table it finds by steps of the system, none of which hands out a message, and
  -- the relay tells at its end that it no longer runs.
  pub relay-Run :
      (rounds : List Round) (workers : Workers) (state : Relayed)
      → Run svc start (record { store = state.store; claims = claims })
      → Run svc start
          (record { store = (relay svc rounds (workers, state)).1.store; claims = claims })
        × ((relay svc rounds (workers, state)).0.relay_running ≡ false)
  unfolding relay
  relay-Run rounds workers state run = (relay_rounds-Run rounds state run, refl)
