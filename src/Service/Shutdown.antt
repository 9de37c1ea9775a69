-- ===== src/Service/Shutdown.antt =====
-- Shutdown of service.go, and what a service that is stopping does.
use kaftar.Prelude.{
  String, ◌≡◌, refl, sym, ap, arith, append-nil, append_assoc, ◌∙◌, Option, none, some, List, [],
  ◌∷◌, ◌++◌, Bool, true, false, All, All-append, if◌then◌else◌,
}
use kaftar.Entity.Time.{Time}
use kaftar.Entity.Channel.{Channel}
use kaftar.Entity.Message.{Message, Bytes}
use kaftar.Entity.Outbox.{Uuid}
use kaftar.Repo.Errors
use kaftar.Repo.Table.{Store, Tx}
use kaftar.Service.Errors.{Result, err, shutting_down}
use kaftar.Service.Accept.{Service, SendOptions, Observation}
use kaftar.Service.Accept
use kaftar.Service.Deliver.{World, Delivery, Settlement, nack, handle_delivery}
use kaftar.Service.Workers.{begin_shutdown}
use kaftar.Service.Broker.{Connection}
use kaftar.Service.Consume.{
  Incoming, polling_done, deliveries_closed, delivered, Consumer, take_deliveries, take_delivery,
  goes_on,
}

-- How Shutdown ends: `cancelled` is whether the work was cancelled, `closing` the connection that
-- was closed, `error` what it returns.
pub record Shut : Type 0 where
  pub service : Service
  pub cancelled : Bool
  pub closing : Option Connection
  pub error : Option String

-- Shutdown: the select finds the workers finished, or the context done with an error.
unfoldable pub shutdown : Option String → Option Connection → Service → Shut
unfolding begin_shutdown
shutdown none connection svc = record {
  service = begin_shutdown svc;
  cancelled = true;
  closing = connection;
  error = none;
}
shutdown (some e) connection svc = record {
  service = begin_shutdown svc;
  cancelled = true;
  closing = none;
  error = some e;
}

IsStopping : Service → Type 0
IsStopping svc = svc.stopping ≡ true

shutdown-IsStopping :
    (e : Option String) (c : Option Connection) (svc : Service)
    → IsStopping (shutdown e c svc).service
unfolding shutdown IsStopping begin_shutdown
shutdown-IsStopping none c svc = refl
shutdown-IsStopping (some e) c svc = refl

-- From one state of a consumer to another the table stays, and the deliveries between them were all
-- handed back to the broker to be delivered again.
pub record HandsBack (before after : Consumer) : Type 0 where
  pub returned : List Settlement
  pub untouched : after.store ≡ before.store
  pub settled : after.settled ≡ before.settled ++ returned
  pub all_returned : All (λ t. t ≡ nack true) returned

-- What a stopping service leaves as it is: the table, whatever is sent to it or delivered.
pub record IsClosed (svc : Service) : Type 0 where
  pub refuses :
      (tx : Tx) (generated : Errors.Result Uuid) (now : Time) (message : Option Message)
      (options : SendOptions) (s : Store)
      → ((Accept.send svc tx generated now message options s).0 ≡ err shutting_down)
        × ((Accept.send svc tx generated now message options s).1 ≡ s)
  pub hands_back :
      (channel : Channel) (incoming : List Incoming) (c : Consumer)
      → HandsBack c (take_deliveries svc channel incoming c)

refused_sends :
    {r : Result String × Store × Observation} {s : Store} {o : Observation}
    → r ≡ (err shutting_down, s, o)
    → (r.0 ≡ err shutting_down) × (r.1 ≡ s)
refused_sends {r = r} e = (
  ap (λ (q : Result String × Store × Observation). q.0) e,
  ap (λ (q : Result String × Store × Observation). q.1) e,
)

unmoved : (c : Consumer) → HandsBack c c
unmoved c = record {
  returned = [];
  untouched = refl;
  settled = sym (append-nil c.settled);
  all_returned = tt;
}

moved : (a b c : Consumer) → HandsBack a b → HandsBack b c → HandsBack a c
moved a b c h k = record {
  returned = h.returned ++ k.returned;
  untouched = k.untouched ∙ h.untouched;
  settled =
      k.settled
      ∙ ap (λ l. l ++ k.returned) h.settled
      ∙ append_assoc a.settled h.returned k.returned;
  all_returned =
      All-append (λ t. t ≡ nack true) h.returned k.returned h.all_returned k.all_returned;
}

if-true : {A : Type 0} (b : Bool) (x y : A) → b ≡ true → (if b then x else y) ≡ x
if-true true x y h = refl
if-true false x y h = absurd (ground arith)

module _ (svc : Service) (stops : IsStopping svc) where
  refused :
      (tx : Tx) (generated : Errors.Result Uuid) (now : Time) (message : Option Message)
      (options : SendOptions) (s : Store)
      → ((Accept.send svc tx generated now message options s).0 ≡ err shutting_down)
        × ((Accept.send svc tx generated now message options s).1 ≡ s)
  unfolding Accept.send IsStopping
  refused tx generated now none options s = refused_sends (if-true svc.stopping _ _ stops)
  refused tx generated now (some message) options s = refused_sends (if-true svc.stopping _ _ stops)

  handed_back :
      (world : World) (channel : Channel) (body : Bytes) (s : Store)
      → handle_delivery svc world channel body s
        ≡ record { settlement = nack true; go_on = false; store = s; observed = [] }
  unfolding handle_delivery IsStopping
  handed_back world channel body s = if-true svc.stopping _ _ stops

  one_back :
      (world : World) (channel : Channel) (body : Bytes) (c : Consumer)
      → HandsBack c (take_delivery svc channel world body c)
  unfolding take_delivery
  one_back world channel body c = rw (handed_back world channel body c.store) (record {
    returned = nack true ∷ [];
    untouched = refl;
    settled = refl;
    all_returned = (refl, tt);
  })

  halts :
      (world : World) (channel : Channel) (body : Bytes) (c : Consumer)
      → goes_on svc channel world body c ≡ false
  unfolding goes_on
  halts world channel body c =
      ap (λ (d : Delivery). d.go_on) (handed_back world channel body c.store)

  all_back :
      (channel : Channel) (incoming : List Incoming) (c : Consumer)
      → HandsBack c (take_deliveries svc channel incoming c)
  unfolding take_deliveries
  all_back channel [] c = unmoved c
  all_back channel (polling_done ∷ rest) c = unmoved c
  all_back channel (deliveries_closed ∷ rest) c = unmoved c
  all_back channel (delivered world body true paused ∷ rest) c = unmoved c
  all_back channel (delivered world body false true ∷ rest) c = rw (halts world channel body c) (
      moved c (take_delivery svc channel world body c) _ (one_back world channel body c)
        (all_back channel rest (take_delivery svc channel world body c)))
  all_back channel (delivered world body false false ∷ rest) c =
      rw (halts world channel body c) (one_back world channel body c)

-- After Shutdown, whether the workers had finished or the context was done first, the service
-- refuses whatever it is sent and hands every delivery back to the broker, and changes no row.
pub shutdown-IsClosed :
    (e : Option String) (c : Option Connection) (svc : Service)
    → IsClosed (shutdown e c svc).service
shutdown-IsClosed e c svc = record {
  refuses = refused (shutdown e c svc).service (shutdown-IsStopping e c svc);
  hands_back = all_back (shutdown e c svc).service (shutdown-IsStopping e c svc);
}
