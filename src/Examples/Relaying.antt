-- ===== src/Examples/Relaying.antt =====
-- A round of the relay over one message, a consumer, and a shutdown.
use kaftar.Prelude.{refl, ◌≡◌, none, some, List, [], ◌∷◌, Bool, true, false, if◌then◌else◌, str_eq}
use kaftar.Entity.Channel.{channel_sms}
use kaftar.Service.Broker.{Broker, confirmation}
use kaftar.Service.Relay.{RelayWorld, Relayed, Round, publish_rows, relay}
use kaftar.Service.Published.{ArePublished, publish_rows-ArePublished}
use kaftar.Service.Consume.{Incoming, polling_done, delivered, Consumer, consume}
use kaftar.Service.Consumption.{own_health, consume-own_health}
use kaftar.Service.Workers.{Workers, stopped}
use kaftar.App.Stop.{Endings, collector_closed}
use kaftar.System.{Run, here}
use kaftar.System.Relaying.{relay-Run}
use kaftar.Examples.{svc, steady, noon}
use kaftar.Examples.Concurrency.{
  retried, retried-Inv, retried-IsFresh, retried-IsFresh_too, text_ne,
}
use kaftar.Examples.Delivery
use kaftar.System.Worker.{Reaches}
use kaftar.System.Consuming.{consume-Run}
use kaftar.Examples.Telemetry.{waiting_message}

abbrev broker : Broker
broker = record {
  is_closed = λ c. false;
  connect = some 1;
  open_channel = λ c. none;
  perform = λ command. none;
  encode = λ id channel. some (1 ∷ []);
  arrival = confirmation (some true);
  returned_too = false;
}

abbrev world : RelayWorld
world = record {
  clock = λ c. noon;
  tx = λ c. steady;
  stopped_before = λ o. false;
  broker = λ o. broker;
}

publish_rows-ArePublished_example :
    ArePublished world (waiting_message ∷ []) (publish_rows world (waiting_message ∷ []) none)
publish_rows-ArePublished_example = publish_rows-ArePublished world (waiting_message ∷ []) none

abbrev before : Relayed
before = record {
  store = retried.store;
  connection = none;
  published = [];
  errors = [];
  stopped = false;
}

abbrev rounds : List Round
rounds =
    record { order = channel_sms ∷ []; world = world; paused = true }
    ∷ record { order = channel_sms ∷ []; world = world; paused = false }
    ∷ []

abbrev idle : Workers
idle = record { relay_running = false; consumers = [] }

relay-Run_example :
    Run svc retried (record { store = (relay svc rounds (idle, before)).1.store; claims = [] })
    × ((relay svc rounds (idle, before)).0.relay_running ≡ false)
relay-Run_example = relay-Run svc retried [] rounds idle before here

abbrev consumer : Consumer
consumer = record {
  store = retried.store;
  connection = none;
  workers = record { relay_running = true; consumers = [] };
  settled = [];
  observed = [];
  errors = [];
}

abbrev connections : List (Broker × List Incoming × Bool)
connections = (broker, polling_done ∷ [], false) ∷ []

consume-own_health_example :
    own_health channel_sms (consume svc channel_sms connections consumer)
    ≡ (if str_eq channel_sms channel_sms then stopped else own_health channel_sms consumer)
consume-own_health_example = consume-own_health svc channel_sms connections consumer channel_sms

-- The message is notified twice, over two connections.
abbrev deliveries : List (Broker × List Incoming × Bool)
deliveries =
    (broker, delivered Delivery.world [] false true ∷ [], true)
    ∷ (broker, delivered (record Delivery.world { token = "u" }) [] false true ∷ [], false)
    ∷ []

consume-Run_example : Reaches svc retried (consume svc channel_sms deliveries consumer).store
consume-Run_example =
    consume-Run svc channel_sms deliveries consumer [] retried-Inv
      (retried-IsFresh, ((λ e. absurd (text_ne "u" "t" refl e)), tt), (retried-IsFresh_too, tt, tt))

-- The workers do not finish in time, and the database cannot be closed.
abbrev endings : Endings
endings = record {
  web = none;
  workers = some "deadline";
  collector = collector_closed;
  handle = none;
  close = some "busy";
}
