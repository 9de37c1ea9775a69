-- ===== src/Service/Consume.antt =====
-- The consumer of a channel in service.go: the connection it sets up, the deliveries it takes, and
-- what it tells of its health.
use kaftar.Prelude.{Option, none, some, List, [], ◌∷◌, ◌++◌, Bool, if◌then◌else◌}
use kaftar.Entity.Channel.{Channel}
use kaftar.Entity.Message.{Bytes}
use kaftar.Repo.Table.{Store}
use kaftar.Service.Accept.{Service, Observation}
use kaftar.Service.Deliver.{World, Settlement, handle_delivery}
use kaftar.Service.Workers.{WorkerHealth, Workers, set_consumer_health, started, consuming, stopped}
use kaftar.Service.Broker.{
  Broker, BrokerError, Connection, and_then, declare_topology, qos, consume_from, mq_connection,
}

-- What the select of consumeConnection finds: the end of polling, the end of the deliveries, or a
-- delivery; after it the context may be done, and the pause that follows a failure may be cut short.
pub data Incoming : Type 0 where
  polling_done : Incoming
  deliveries_closed : Incoming
  delivered : World → Bytes → Bool → Bool → Incoming

-- The service's state as a consumer changes it. `settled` is how the deliveries were answered.
pub record Consumer : Type 0 where
  pub store : Store
  pub connection : Option Connection
  pub workers : Workers
  pub settled : List Settlement
  pub observed : List Observation
  pub errors : List Channel

module _ (svc : Service) (destination : Channel) where
  unfoldable pub take_delivery : World → Bytes → Consumer → Consumer
  unfolding handle_delivery
  take_delivery world body c =
      let d = handle_delivery svc world destination body c.store in
      record c {
        store = d.store;
        settled = c.settled ++ d.settlement ∷ [];
        observed = c.observed ++ d.observed;
      }

  unfoldable pub goes_on : World → Bytes → Consumer → Bool
  unfolding handle_delivery
  goes_on world body c = (handle_delivery svc world destination body c.store).go_on

  -- The loop over the deliveries.
  unfoldable pub take_deliveries : List Incoming → Consumer → Consumer
  unfolding take_delivery goes_on
  take_deliveries [] c = c
  take_deliveries (polling_done ∷ rest) c = c
  take_deliveries (deliveries_closed ∷ rest) c = c
  take_deliveries (delivered world body done paused ∷ rest) c =
      let later = take_deliveries rest (take_delivery world body c) in
      if done
      then c
      else if goes_on world body c
      then later
      else if paused
      then later
      else take_delivery world body c

  unfoldable pub set_own : WorkerHealth → Consumer → Consumer
  unfolding set_consumer_health
  set_own health c = record c { workers = set_consumer_health destination health c.workers }

  -- What the setup calls on the channel after it is open.
  unfoldable pub set_up : Broker → Option BrokerError
  unfolding declare_topology
  set_up broker =
      and_then (declare_topology broker destination)
        (and_then (broker.perform (qos 1)) (broker.perform (consume_from destination)))

  abbrev pub with_error : Consumer → Consumer
  with_error c = record c { errors = c.errors ++ destination ∷ [] }

  -- The deliveries of a channel that is set up, between the two changes of the health.
  unfoldable pub consume_deliveries : List Incoming → Consumer → Consumer
  unfolding take_deliveries set_own
  consume_deliveries incoming c = set_own started (take_deliveries incoming (set_own consuming c))

  unfoldable pub consume_channel : Broker → Connection → List Incoming → Consumer → Consumer
  unfolding consume_deliveries set_up
  consume_channel broker connection incoming c = elim (broker.open_channel connection) [
    | some e ↦ c
    | none ↦ elim (set_up broker) [ some e ↦ with_error c | none ↦ consume_deliveries incoming c ]
  ]

  unfoldable pub on_connection :
      Broker → List Incoming → Option Connection × Option Connection → Consumer → Consumer
  unfolding consume_channel
  on_connection broker incoming (none, kept) c = with_error (record c { connection = kept })
  on_connection broker incoming (some connection, kept) c =
      consume_channel broker connection incoming (record c { connection = kept })

  unfoldable pub consume_connection : Broker → List Incoming → Consumer → Consumer
  unfolding set_own mq_connection on_connection
  consume_connection broker incoming c =
      on_connection broker incoming (mq_connection broker c.connection) (set_own started c)

  -- The loop of consume: for each connection the broker and what comes in, and whether the pause
  -- after it is over before polling ends. A connection is tried only while polling goes on.
  unfoldable pub consume_connections : List (Broker × List Incoming × Bool) → Consumer → Consumer
  unfolding consume_connection
  consume_connections [] c = c
  consume_connections ((broker, incoming, paused) ∷ rest) c =
      let later = consume_connections rest (consume_connection broker incoming c) in
      if paused then later else consume_connection broker incoming c

  unfoldable pub consume : List (Broker × List Incoming × Bool) → Consumer → Consumer
  unfolding set_own consume_connections
  consume connections c = set_own stopped (consume_connections connections (set_own started c))
