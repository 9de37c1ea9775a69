-- ===== src/Service/Broker.antt =====
-- What service.go says to the broker: the connection that it keeps, the topology, and publishing
-- with confirmation. What the AMQP library and the broker answer is given.
use kaftar.Prelude.{ℕ, String, Option, none, some, Bool, true, false, not, if◌then◌else◌}
use Prim.Native.String.{◌++◌ as append}
use kaftar.Entity.Channel.{Channel}
use kaftar.Entity.Message.{Bytes}
use kaftar.Entity.Outbox.{Outbox, Uuid}

pub data BrokerError : Type 0 where
  unavailable unroutable unconfirmed returned channel_closed unreadable : BrokerError
  failed : String → BrokerError

-- A connection is a number.
abbrev pub Connection : Type 0
Connection = ℕ

-- A method of an AMQP channel with what the broker is told: a durable queue with the routing key of
-- its dead letters, the confirm mode, a persistent and mandatory message for a queue, the prefetch
-- count, and the consumption of a queue.
pub data Command : Type 0 where
  declare : String → Option String → Command
  confirm : Command
  publish_to : String → Bytes → Command
  qos : ℕ → Command
  consume_from : String → Command

-- What select finds first: a returned message, a confirmation (none when its channel is closed)
-- with its Ack, the closing of the channel, or the end of the context.
pub data Arrival : Type 0 where
  return_first : Arrival
  confirmation : Option Bool → Arrival
  close_first : Arrival
  context_done : BrokerError → Arrival

-- `returned_too` is whether a returned message waits when the confirmation has been received.
pub record Broker : Type 0 where
  pub is_closed : Connection → Bool
  pub connect : Option Connection
  pub open_channel : Connection → Option BrokerError
  pub perform : Command → Option BrokerError
  pub encode : Uuid → Channel → Option Bytes
  pub arrival : Arrival
  pub returned_too : Bool

-- The source's `if err != nil { return err }`.
abbrev pub and_then : Option BrokerError → Option BrokerError → Option BrokerError
and_then (some e) rest = some e
and_then none rest = rest

-- awaitConfirmation
unfoldable pub await_confirmation : Arrival → Bool → Option BrokerError
await_confirmation return_first returned_too = some unroutable
await_confirmation (confirmation none) returned_too = some unconfirmed
await_confirmation (confirmation (some false)) returned_too = some unconfirmed
await_confirmation (confirmation (some true)) returned_too =
    if returned_too then some returned else none
await_confirmation close_first returned_too = some channel_closed
await_confirmation (context_done e) returned_too = some e

module _ (broker : Broker) where
  abbrev reconnected : Option Connection → Option Connection → Option Connection × Option Connection
  reconnected (some c) kept = (some c, some c)
  reconnected none kept = (none, kept)

  -- mqConnection, on the kept connection: what it returns, and the connection that is kept then.
  unfoldable pub mq_connection : Option Connection → Option Connection × Option Connection
  mq_connection none = reconnected broker.connect none
  mq_connection (some c) =
      if not (broker.is_closed c) then (some c, some c) else reconnected broker.connect (some c)

  -- declareTopology
  unfoldable pub declare_topology : Channel → Option BrokerError
  declare_topology channel =
      and_then (broker.perform (declare channel none))
        (broker.perform (declare (append channel ".delay") (some channel)))

  abbrev pub publish_body : Channel → Option Bytes → Option BrokerError
  publish_body channel none = some unreadable
  publish_body channel (some body) = broker.perform (publish_to channel body)

  -- The rest of publish, on a connection.
  unfoldable pub publish_on : Connection → Outbox → Option BrokerError
  unfolding declare_topology await_confirmation
  publish_on connection outbox = and_then (broker.open_channel connection) (
      and_then (declare_topology outbox.channel) (
        and_then (broker.perform confirm) (
          and_then (publish_body outbox.channel (broker.encode outbox.id outbox.channel))
            (await_confirmation broker.arrival broker.returned_too))))

  unfoldable pub publish_by : Option Connection → Outbox → Option BrokerError
  unfolding publish_on
  publish_by none outbox = some unavailable
  publish_by (some c) outbox = publish_on c outbox

  -- (*service).publish
  unfoldable pub publish : Outbox → Option Connection → Option BrokerError × Option Connection
  unfolding mq_connection publish_by
  publish outbox kept =
      let (connection, kept') = mq_connection kept in (publish_by connection outbox, kept')
