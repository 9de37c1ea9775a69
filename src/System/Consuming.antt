-- ===== src/System/Consuming.antt =====
-- A consumer, over all its connections and deliveries, as a run of the system.
use kaftar.Prelude.{
  ◌≢◌, String, Option, none, some, List, [], ◌∷◌, ◌++◌, Bool, All, Option-cases, Bool-cases, inl,
  inr,
}
use kaftar.Entity.Channel.{Channel}
use kaftar.Entity.Message.{Bytes}
use kaftar.Entity.Outbox.{Outbox}
use kaftar.Repo.Table.{Store}
use kaftar.Service.Accept.{Service}
use kaftar.Service.Deliver.{World, handle_delivery, lease_time}
use kaftar.Service.Workers.{started, consuming}
use kaftar.Service.Broker.{Broker, Connection, mq_connection}
use kaftar.Service.Consume.{
  Incoming, polling_done, deliveries_closed, delivered, Consumer, take_deliveries, take_delivery,
  goes_on, set_own, set_up, consume_deliveries, consume_channel, on_connection, consume_connection,
  consume_connections, consume,
}
use kaftar.System.{System, Run, here, next, IsFresh}
use kaftar.System.Invariant.{Inv, Run-Inv}
use kaftar.System.Tokens.{accept-Unheld, claim-Unheld, finish-Unheld}
use kaftar.System.Worker.{handle_delivery-Leads, Reaches}

-- The lease tokens that the deliveries draw.
abbrev pub tokens : List Incoming → List String
tokens [] = []
tokens (polling_done ∷ rest) = tokens rest
tokens (deliveries_closed ∷ rest) = tokens rest
tokens (delivered world body done paused ∷ rest) = world.token ∷ tokens rest

abbrev pub all_tokens : List (Broker × List Incoming × Bool) → List String
all_tokens [] = []
all_tokens ((broker, incoming, paused) ∷ rest) = tokens incoming ++ all_tokens rest

-- Tokens that nobody has seen, no two of them the same.
abbrev pub Unused : List String → System → Type 0
Unused [] sys = Unit
Unused (t ∷ ts) sys = IsFresh t sys × All (λ u. u ≢ t) ts × Unused ts sys

Unused-map :
    (own : String) (s s' : System)
    → ((t : String) → t ≢ own → IsFresh t s → IsFresh t s')
    → (ts : List String) → All (λ u. u ≢ own) ts
    → Unused ts s
    → Unused ts s'
Unused-map own s s' h [] o u = tt
Unused-map own s s' h (t ∷ ts) o u = (h t o.0 u.0, u.1, Unused-map own s s' h ts o.1 u.2)

Unused-drop : (ts more : List String) (s : System) → Unused (ts ++ more) s → Unused more s
Unused-drop [] more s u = u
Unused-drop (t ∷ ts) more s u = Unused-drop ts more s u.2

module _ (svc : Service) where
  Run-trans : {r s t : System} → Run svc r s → Run svc s t → Run svc r t
  Run-trans p here = p
  Run-trans p (next q st) = next (Run-trans p q) st

  -- The system reaches this table by a run that leaves these tokens unused.
  abbrev Onward : System → List String → Store → Type 0
  Onward sys more s =
      (claims : List Outbox) × Run svc sys (record { store = s; claims = claims })
      × Unused more (record { store = s; claims = claims })

  delivery-Onward :
      (world : World) (channel : Channel) (body : Bytes) (sys : System) (ts : List String)
      → Inv sys
      → Unused (world.token ∷ ts) sys
      → Onward sys ts (handle_delivery svc world channel body sys.store).store
  delivery-Onward world channel body sys ts i u =
      handle_delivery-Leads svc world sys (Unused ts) u.2
        (λ m o.
          Unused-map world.token sys _
            (λ t n f. record {
              named = f.named;
              unclaimed = f.unclaimed;
              unheld =
                  accept-Unheld t f.named svc world.create_tx world.generated world.claimed_at m o
                    sys.store f.unheld;
            })
            ts u.1 u.2)
        (λ id c.
          Unused-map world.token sys _
            (λ t n f.
              let (held, claimed) =
                claim-Unheld t f.named svc.uuids world.claim_tx id c world.claimed_at lease_time
                  world.token sys.store sys.claims n i.distinct f.unheld f.unclaimed in
              record { named = f.named; unclaimed = claimed; unheld = held })
            ts u.1 u.2)
        (λ s claims o a.
          Unused-map world.token (record { store = s; claims = claims }) _
            (λ t n f. record {
              named = f.named;
              unclaimed = f.unclaimed;
              unheld =
                  finish-Unheld t f.named svc.uuids world.finish_tx _ world.finished_at s f.unheld;
            })
            ts u.1)
        channel body u.0

  -- A run from where another one ends.
  then_on :
      (sys : System) (s s' : Store) (claims : List Outbox) (more : List String)
      → Run svc sys (record { store = s; claims = claims })
      → Onward (record { store = s; claims = claims }) more s'
      → Onward sys more s'
  then_on sys s s' claims more run (claims', run', unused) = (claims', Run-trans run run', unused)

  module _ (destination : Channel) where
    take_deliveries-Onward :
        (incoming : List Incoming) (c : Consumer) (claims : List Outbox) (more : List String)
        → Inv (record { store = c.store; claims = claims })
        → Unused (tokens incoming ++ more) (record { store = c.store; claims = claims })
        → Onward
            (record { store = c.store; claims = claims })
            more
            (take_deliveries svc destination incoming c).store
    unfolding take_deliveries take_delivery
    take_deliveries-Onward [] c claims more i u = (claims, here, u)
    take_deliveries-Onward (polling_done ∷ rest) c claims more i u =
        (claims, here, Unused-drop (tokens rest) more _ u)
    take_deliveries-Onward (deliveries_closed ∷ rest) c claims more i u =
        (claims, here, Unused-drop (tokens rest) more _ u)
    take_deliveries-Onward (delivered world body done paused ∷ rest) c claims more i u =
        let sys : System = record { store = c.store; claims = claims } in
        let (claims', run, unused) =
          delivery-Onward world destination body sys (tokens rest ++ more) i u in
        let after = take_delivery svc destination world body c in
        let later =
          then_on sys after.store (take_deliveries svc destination rest after).store claims' more
            run (take_deliveries-Onward rest after claims' more (Run-Inv svc i run) unused) in
        elim (Bool-cases done) [
          | inl d ↦ rw d (claims, here, Unused-drop (tokens rest) more sys u.2)
          | inr d ↦ elim (Bool-cases (goes_on svc destination world body c)) [
            | inl g ↦ rw (d, g) later
            | inr g ↦ elim (Bool-cases paused) [
              | inl p ↦ rw (d, g, p) later
              | inr p ↦ rw (d, g, p) (claims', run, Unused-drop (tokens rest) more _ unused)
            ]
          ]
        ]

    module _ (broker : Broker) (incoming : List Incoming) (more : List String) where
      consume_channel-Onward :
          (connection : Connection) (c : Consumer) (claims : List Outbox)
          → Inv (record { store = c.store; claims = claims })
          → Unused (tokens incoming ++ more) (record { store = c.store; claims = claims })
          → Onward
              (record { store = c.store; claims = claims })
              more
              (consume_channel svc destination broker connection incoming c).store
      unfolding consume_channel consume_deliveries set_own
      consume_channel-Onward connection c claims i u =
          let unheard = Unused-drop (tokens incoming) more _ u in
          elim (Option-cases (broker.open_channel connection)) [
            | inr (e, n) ↦ rw (n, consume_channel) (claims, here, unheard)
            | inl n ↦
                rw (n, consume_channel)
                  (elim (Option-cases (set_up svc destination broker)) [
                    | inr (e, m) ↦ rw (m) (claims, here, unheard)
                    | inl m ↦ rw (m) (
                        take_deliveries-Onward incoming (set_own svc destination consuming c) claims
                          more i u)
                  ])
          ]

      on_connection-Onward :
          (r : Option Connection × Option Connection) (c : Consumer) (claims : List Outbox)
          → Inv (record { store = c.store; claims = claims })
          → Unused (tokens incoming ++ more) (record { store = c.store; claims = claims })
          → Onward
              (record { store = c.store; claims = claims })
              more
              (on_connection svc destination broker incoming r c).store
      unfolding on_connection
      on_connection-Onward (none, kept) c claims i u =
          (claims, here, Unused-drop (tokens incoming) more _ u)
      on_connection-Onward (some connection, kept) c claims i u =
          consume_channel-Onward connection (record c { connection = kept }) claims i u

      consume_connection-Onward :
          (c : Consumer) (claims : List Outbox)
          → Inv (record { store = c.store; claims = claims })
          → Unused (tokens incoming ++ more) (record { store = c.store; claims = claims })
          → Onward
              (record { store = c.store; claims = claims })
              more
              (consume_connection svc destination broker incoming c).store
      unfolding consume_connection set_own
      consume_connection-Onward c claims i u =
          on_connection-Onward (mq_connection broker c.connection)
            (set_own svc destination started c) claims i u

    consume_connections-Onward :
        (connections : List (Broker × List Incoming × Bool)) (c : Consumer) (claims : List Outbox)
        → Inv (record { store = c.store; claims = claims })
        → Unused (all_tokens connections) (record { store = c.store; claims = claims })
        → Onward
            (record { store = c.store; claims = claims })
            []
            (consume_connections svc destination connections c).store
    unfolding consume_connections
    consume_connections-Onward [] c claims i u = (claims, here, tt)
    consume_connections-Onward ((broker, incoming, paused) ∷ rest) c claims i u =
        let sys : System = record { store = c.store; claims = claims } in
        let (claims', run, unused) =
          consume_connection-Onward broker incoming (all_tokens rest) c claims i u in
        let after = consume_connection svc destination broker incoming c in
        elim (Bool-cases paused) [
          | inl p ↦ rw (p) (
              then_on sys after.store (consume_connections svc destination rest after).store claims'
                [] run (consume_connections-Onward rest after claims' (Run-Inv svc i run) unused))
          | inr p ↦ rw (p) (claims', run, tt)
        ]

    -- Whatever connections a consumer makes, and whatever it is delivered in whatever world, the
    -- table it leaves is reached from the table it finds by a run of the system, if that is one that
    -- satisfies the invariant and the tokens that the deliveries draw are new and distinct.
    pub consume-Run :
        (connections : List (Broker × List Incoming × Bool)) (c : Consumer) (claims : List Outbox)
        → Inv (record { store = c.store; claims = claims })
        → Unused (all_tokens connections) (record { store = c.store; claims = claims })
        → Reaches svc
            (record { store = c.store; claims = claims })
            (consume svc destination connections c).store
    unfolding consume set_own
    consume-Run connections c claims i u =
        let (claims', run, unused) =
          consume_connections-Onward connections (set_own svc destination started c) claims i u in
        (claims', run)
