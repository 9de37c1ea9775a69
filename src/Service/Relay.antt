-- ===== src/Service/Relay.antt =====
-- The relay of service.go: it reserves due rows and publishes a notification for each.
use kaftar.Prelude.{
  ℕ, Option, none, some, List, [], ◌∷◌, ◌++◌, Bool, true, false, ◌*◌, if◌then◌else◌,
}
use kaftar.Entity.Time.{Time, second}
use kaftar.Entity.Channel.{Channel}
use kaftar.Entity.Outbox.{Outbox}
use kaftar.Repo.Errors.{RepoError}
use kaftar.Repo.Table.{Store, Tx}
use kaftar.Repo.Delivery.{reserve_dispatch}
use kaftar.Service.Accept.{Service}
use kaftar.Service.Broker.{Broker, Connection, publish}
use kaftar.Service.Workers.{Workers, set_relay_running}

abbrev pub relay_interval : ℕ
relay_interval = 10 * second

abbrev pub relay_limit : ℕ
relay_limit = 32

-- What happens around one round of the relay: for each channel the reading of the clock and what
-- the database does, for each row whether the context is done before it and what the broker does.
pub record RelayWorld : Type 0 where
  pub clock : Channel → Time
  pub tx : Channel → Tx
  pub stopped_before : Outbox → Bool
  pub broker : Outbox → Broker

-- How the loop over the rows ends: after the last row, with `return`, or with `break`.
pub data Ending : Type 0 where
  completed stopped broken : Ending

pub record Published : Type 0 where
  pub ending : Ending
  pub rows : List Outbox
  pub connection : Option Connection

abbrev ended : Ending → Option Connection → Published
ended ending connection = record { ending = ending; rows = []; connection = connection }

module _ (world : RelayWorld) where
  -- The loop over the rows: those that were published, and the connection that is kept.
  unfoldable pub publish_rows : List Outbox → Option Connection → Published
  unfolding publish
  publish_rows [] kept = ended completed kept
  publish_rows (row ∷ rows) kept =
      let (error, kept') = publish (world.broker row) row kept in
      let rest = publish_rows rows kept' in
      if world.stopped_before row then ended stopped kept else elim error [
        | some e ↦ ended broken kept'
        | none ↦ record rest { rows = row ∷ rest.rows }
      ]

-- The service's state as the relay changes it; `errors` holds the channels for which the observer
-- was told of a broker error, `published` the notifications that were published.
pub record Relayed : Type 0 where
  pub store : Store
  pub connection : Option Connection
  pub published : List Outbox
  pub errors : List Channel
  pub stopped : Bool

abbrev pub is_stopped : Ending → Bool
is_stopped stopped = true
is_stopped _ = false

abbrev pub broken_channel : Channel → Ending → List Channel
broken_channel channel broken = channel ∷ []
broken_channel channel _ = []

module _ (svc : Service) (world : RelayWorld) where
  unfoldable pub publish_reserved :
      Channel → (List Outbox × Option RepoError) × Store → Relayed → Relayed
  unfolding publish_rows
  publish_reserved channel ((rows, some e), s) state = record state { store = s }
  publish_reserved channel ((rows, none), s) state =
      let p = publish_rows world rows state.connection in
      record {
        store = s;
        connection = p.connection;
        published = state.published ++ p.rows;
        errors = state.errors ++ broken_channel channel p.ending;
        stopped = is_stopped p.ending;
      }

  unfoldable pub relay_channel : Channel → Relayed → Relayed
  unfolding publish_reserved
  relay_channel channel state =
      publish_reserved channel
        (reserve_dispatch svc.uuids (world.tx channel) channel (world.clock channel) relay_interval
          relay_limit state.store)
        state

  -- One round of the relay's loop, over the channels of the senders in the order of the map.
  unfoldable pub relay_round : List Channel → Relayed → Relayed
  unfolding relay_channel
  relay_round [] state = state
  relay_round (c ∷ cs) state =
      let rest = relay_round cs (relay_channel c state) in
      if (relay_channel c state).stopped then relay_channel c state else rest

-- A round: the order in which the map gives its channels, what happens in the round, and whether the
-- pause after it is over before the context is done.
pub record Round : Type 0 where
  pub order : List Channel
  pub world : RelayWorld
  pub paused : Bool

module _ (svc : Service) where
  -- The loop of relay. A round is begun only while the context is not done.
  unfoldable pub relay_rounds : List Round → Relayed → Relayed
  unfolding relay_round
  relay_rounds [] state = state
  relay_rounds (r ∷ rs) state =
      let after = relay_round svc r.world r.order state in
      let later = relay_rounds rs after in
      if after.stopped then after else if r.paused then later else after

  -- The goroutine that New starts: it tells when it runs and when it has ended.
  unfoldable pub relay : List Round → Workers × Relayed → Workers × Relayed
  unfolding set_relay_running relay_rounds
  relay rounds (workers, state) =
      let running = set_relay_running true workers in
      let after = relay_rounds rounds state in (set_relay_running false running, after)
