-- ===== src/Service/Consumption.antt =====
-- What Health reads of a consumer while and after it works.
use kaftar.Prelude.{
  ◌≡◌, refl, sym, ◌∙◌, Option, none, some, List, [], ◌∷◌, Bool, true, false, arith, str_eq,
  str_eq_refl, str_eq_iff, Bool-cases, Option-cases, inl, inr, if◌then◌else◌,
}
use kaftar.Entity.Channel.{Channel}
use kaftar.Service.Accept.{Service}
use kaftar.Service.Deliver.{World}
use kaftar.Entity.Message.{Bytes}
use kaftar.Service.Workers.{
  Workers, WorkerHealth, Consumers, consumer_at, put_consumer, set_consumer_health, started,
  stopped, consuming,
}
use kaftar.Service.Broker.{Broker, Connection, mq_connection}
use kaftar.Service.Consume.{
  take_delivery, goes_on, Incoming, Consumer, set_own, set_up, take_deliveries, polling_done,
  deliveries_closed, delivered, consume_deliveries, consume_channel, on_connection,
  consume_connection, consume_connections, consume,
}

module _ (channel : Channel) (health : WorkerHealth) where
  put-here : (cs : Consumers) → consumer_at channel (put_consumer channel health cs) ≡ health
  unfolding consumer_at put_consumer
  put-here [] = ground (arith, str_eq_refl channel)
  put-here ((c, h) ∷ cs) = ground (arith, put-here cs)

  put-elsewhere :
      (k : Channel)
      → str_eq channel k ≡ false
      → (cs : Consumers) → consumer_at k (put_consumer channel health cs) ≡ consumer_at k cs
  unfolding consumer_at put_consumer
  put-elsewhere k n [] = ground arith
  put-elsewhere k n ((c, h) ∷ cs) = elim (Bool-cases (str_eq c channel)) [
    | inl e ↦ rw ((str_eq_iff c channel).0 e, str_eq_refl channel, n) refl
    | inr e ↦ ground (arith, put-elsewhere k n cs)
  ]

-- The health that Health reads of a channel.
abbrev pub own_health : Channel → Consumer → WorkerHealth
own_health channel c = consumer_at channel c.workers.consumers

module _ (svc : Service) (destination : Channel) where
  -- From one state to another, the consumer's own health has become `health`, and no other.
  Tells : WorkerHealth → Consumer → Consumer → Type 0
  Tells health before after =
      (k : Channel)
      → own_health k after ≡ (if str_eq destination k then health else own_health k before)

  told : (health : WorkerHealth) (c : Consumer) → Tells health c (set_own svc destination health c)
  unfolding Tells set_own set_consumer_health
  told health c k = elim (Bool-cases (str_eq destination k)) [
    | inl e ↦
        rw (sym ((str_eq_iff destination k).0 e), str_eq_refl destination)
          (put-here destination health c.workers.consumers)
    | inr e ↦ rw e (put-elsewhere destination health k e c.workers.consumers)
  ]

  then_told : (g h : WorkerHealth) (a b c : Consumer) → Tells g a b → Tells h b c → Tells h a c
  unfolding Tells
  then_told g h a b c t u k = elim (Bool-cases (str_eq destination k)) [
    | inl e ↦ u k ∙ rw e refl
    | inr e ↦ u k ∙ rw e (t k ∙ rw e refl)
  ]

  on_each_branch :
      (done goes paused : Bool) (w : Workers) (x y z : Consumer)
      → x.workers ≡ w
      → y.workers ≡ w
      → z.workers ≡ w
      → (if done then x else (if goes then y else (if paused then y else z))).workers ≡ w
  on_each_branch true goes paused w x y z p q r = p
  on_each_branch false true paused w x y z p q r = q
  on_each_branch false false true w x y z p q r = q
  on_each_branch false false false w x y z p q r = r

  one_taken :
      (world : World) (body : Bytes) (c : Consumer)
      → (take_delivery svc destination world body c).workers ≡ c.workers
  unfolding take_delivery
  one_taken world body c = refl

  take_deliveries-workers :
      (incoming : List Incoming) (c : Consumer)
      → (take_deliveries svc destination incoming c).workers ≡ c.workers
  unfolding take_deliveries
  take_deliveries-workers [] c = refl
  take_deliveries-workers (polling_done ∷ rest) c = refl
  take_deliveries-workers (deliveries_closed ∷ rest) c = refl
  take_deliveries-workers (delivered world body done paused ∷ rest) c =
      let later = take_deliveries-workers rest (take_delivery svc destination world body c) in
      on_each_branch done (goes_on svc destination world body c) paused c.workers _ _ _ refl
        (later ∙ one_taken world body c) (one_taken world body c)

  same_workers :
      (h : WorkerHealth) (a b c : Consumer) → Tells h a b → c.workers ≡ b.workers → Tells h a c
  unfolding Tells
  same_workers h a b c t e k = rw e (t k)

  deliveries_told :
      (incoming : List Incoming) (c : Consumer)
      → Tells started c (consume_deliveries svc destination incoming c)
  unfolding consume_deliveries
  deliveries_told incoming c =
      let connected = set_own svc destination consuming c in
      let taken = take_deliveries svc destination incoming connected in
      then_told consuming started c taken _
        (same_workers consuming c connected taken (told consuming c)
          (take_deliveries-workers incoming connected))
        (told started taken)

  channel_told :
      (broker : Broker) (connection : Connection) (incoming : List Incoming) (b c : Consumer)
      → Tells started b c
      → Tells started b (consume_channel svc destination broker connection incoming c)
  unfolding consume_channel
  channel_told broker connection incoming b c t =
      elim (Option-cases (broker.open_channel connection)) [
        | inr (e, n) ↦ rw (n, consume_channel) t
        | inl n ↦ elim (Option-cases (set_up svc destination broker)) [
          | inr (e, m) ↦ rw (n, m, consume_channel) (same_workers started b c _ t refl)
          | inl m ↦
              rw (n, m, consume_channel)
                (then_told started started b c _ t (deliveries_told incoming c))
        ]
      ]

  on_told :
      (broker : Broker) (incoming : List Incoming) (r : Option Connection × Option Connection)
      (b c : Consumer)
      → Tells started b c
      → Tells started b (on_connection svc destination broker incoming r c)
  unfolding on_connection
  on_told broker incoming (none, kept) b c t = same_workers started b c _ t refl
  on_told broker incoming (some connection, kept) b c t =
      channel_told broker connection incoming b (record c { connection = kept })
        (same_workers started b c _ t refl)

  connection_told :
      (broker : Broker) (incoming : List Incoming) (c : Consumer)
      → Tells started c (consume_connection svc destination broker incoming c)
  unfolding consume_connection
  connection_told broker incoming c =
      on_told broker incoming (mq_connection broker c.connection) c
        (set_own svc destination started c) (told started c)

  connections_told :
      (connections : List (Broker × List Incoming × Bool)) (b c : Consumer)
      → Tells started b c
      → Tells started b (consume_connections svc destination connections c)
  unfolding consume_connections
  connections_told [] b c t = t
  connections_told ((broker, incoming, true) ∷ rest) b c t =
      connections_told rest b _
        (then_told started started b c _ t (connection_told broker incoming c))
  connections_told ((broker, incoming, false) ∷ rest) b c t =
      then_told started started b c _ t (connection_told broker incoming c)

  -- When a consumer has left a connection, in whatever way, its channel runs and is not connected, and no other channel's health has changed.
  pub consume_connection-own_health :
      (broker : Broker) (incoming : List Incoming) (c : Consumer) (k : Channel)
      → own_health k (consume_connection svc destination broker incoming c)
        ≡ (if str_eq destination k then started else own_health k c)
  unfolding Tells
  consume_connection-own_health broker incoming c = connection_told broker incoming c

  -- When a consumer ends, after whatever connections and failures, its channel neither runs nor is
  -- connected, and no other channel's health has changed.
  pub consume-own_health :
      (connections : List (Broker × List Incoming × Bool)) (c : Consumer) (k : Channel)
      → own_health k (consume svc destination connections c)
        ≡ (if str_eq destination k then stopped else own_health k c)
  unfolding Tells consume
  consume-own_health connections c =
      let b = set_own svc destination started c in
      let worked = consume_connections svc destination connections b in
      then_told started stopped c worked (set_own svc destination stopped worked)
        (connections_told connections c b (told started c)) (told stopped worked)
