-- ===== src/Service/Workers.antt =====
-- What service.go keeps of its workers, and what Health and Status answer. The goroutines call
-- `set_relay_running` and `set_consumer_health`; here they are functions on the record.
use kaftar.Prelude.{
  pos, String, Option, none, some, List, [], ◌∷◌, map, Bool, true, false, not, if◌then◌else◌,
  str_eq, any,
}
use kaftar.Entity.Channel.{Channel, is_valid}
use kaftar.Entity.Outbox.{Outbox, OutboxFilter, OutboxStatus, status}
use kaftar.Entity.State.{other}
use kaftar.Repo.Model.{Uuids}
use kaftar.Repo.Errors.{Result, ok, err, ◌>>=◌, record_not_found}
use kaftar.Repo.Table.{Store, Tx}
use kaftar.Repo.Create.{get}
use kaftar.Service.Accept.{Service}

pub record WorkerHealth : Type 0 where
  pub running : Bool
  pub connected : Bool

-- WorkerHealth{}
abbrev pub stopped : WorkerHealth
stopped = record { running = false; connected = false }

abbrev pub started : WorkerHealth
started = record { running = true; connected = false }

abbrev pub consuming : WorkerHealth
consuming = record { running = true; connected = true }

-- map[entity.Channel]WorkerHealth
abbrev pub Consumers : Type 0
Consumers = List (Channel × WorkerHealth)

-- A missing key reads as the zero value.
unfoldable pub consumer_at : Channel → Consumers → WorkerHealth
consumer_at channel [] = stopped
consumer_at channel ((c, health) ∷ rest) =
    let later = consumer_at channel rest in if str_eq c channel then health else later

unfoldable pub put_consumer : Channel → WorkerHealth → Consumers → Consumers
put_consumer channel health [] = (channel, health) ∷ []
put_consumer channel health ((c, old) ∷ rest) =
    let put = put_consumer channel health rest in
    if str_eq c channel then (c, health) ∷ rest else (c, old) ∷ put

pub record Workers : Type 0 where
  pub relay_running : Bool
  pub consumers : Consumers

-- setRelayRunning
unfoldable pub set_relay_running : Bool → Workers → Workers
set_relay_running running w = record w { relay_running = running }

-- setConsumerHealth
unfoldable pub set_consumer_health : Channel → WorkerHealth → Workers → Workers
unfolding put_consumer
set_consumer_health channel health w = record w {
  consumers = put_consumer channel health w.consumers;
}

abbrev pub add_channel : Channel → List Channel → List Channel
add_channel c channels = if any (λ k. str_eq k c) channels then channels else c ∷ channels

-- The loop of New over the senders: `none` is a nil sender, and a sender is its channel. It
-- answers the keys of `senders` and the consumers, or none where New returns an error.
unfoldable pub register_senders : List (Option Channel) → Option (List Channel × Consumers)
unfolding is_valid put_consumer any
register_senders [] = some ([], [])
register_senders (none ∷ senders) = none
register_senders (some c ∷ senders) =
    if not (is_valid c) then none else elim (register_senders senders) [
      | none ↦ none
      | some (channels, consumers) ↦ some (add_channel c channels, put_consumer c stopped consumers)
    ]

-- The exported Health of the service.
pub record Snapshot : Type 0 where
  pub shutting_down : Bool
  pub relay_running : Bool
  pub consumers : Consumers
  pub providers : List Channel

-- (*service).Health
unfoldable pub health : Service → Workers → Snapshot
unfolding consumer_at
health svc w = record {
  shutting_down = svc.stopping;
  relay_running = w.relay_running;
  consumers = map (λ c. (c, consumer_at c w.consumers)) svc.channels;
  providers = svc.channels;
}

-- BeginShutdown
unfoldable pub begin_shutdown : Service → Service
begin_shutdown svc = record svc { stopping = true }

abbrev pub by_id : String → OutboxFilter
by_id id = record { id = id; state = other (pos 0); channel = "" }

-- rows[0].Status(), if there is one row.
unfoldable pub only_status : List Outbox → Result OutboxStatus
unfolding status
only_status (o ∷ []) = ok (status o)
only_status _ = err record_not_found

-- (*service).Status
unfoldable pub service_status : Uuids → Tx → String → Store → Result OutboxStatus
unfolding get only_status
service_status uuids tx id s = elim (uuids.parse id) [
  | none ↦ err record_not_found
  | some parsed ↦ get uuids tx (by_id id) s >>= only_status
]
