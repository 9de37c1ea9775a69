-- ===== src/Service/Published.antt =====
-- What publishing without an error means, and which rows the relay publishes.
use kaftar.Prelude.{
  ◌≡◌, refl, ap, Option, none, some, List, [], ◌∷◌, ◌++◌, Bool, true, false, arith, All, Bool-cases,
  Option-cases, inl, inr,
}
use Prim.Native.String.{◌++◌ as append}
use kaftar.Entity.Message.{Bytes}
use kaftar.Entity.Outbox.{Outbox}
use kaftar.Service.Broker.{
  Broker, BrokerError, Connection, Arrival, confirmation, return_first, close_first, context_done,
  declare, confirm, publish_to, and_then, await_confirmation, declare_topology, publish_on,
  publish_by, publish_body, publish, mq_connection,
}
use kaftar.Service.Relay.{RelayWorld, publish_rows, completed, Published}

-- The broker has the queue of the row's channel and the queue of its delays, and took, returned
-- nothing of, and confirmed the notification.
pub record IsPublished (broker : Broker) (row : Outbox) : Type 0 where
  pub connection : Connection
  pub body : Bytes
  pub opened : broker.open_channel connection ≡ none
  pub declared : broker.perform (declare row.channel none) ≡ none
  pub delay_declared :
      broker.perform (declare (append row.channel ".delay") (some row.channel)) ≡ none
  pub confirming : broker.perform confirm ≡ none
  pub encoded : broker.encode row.id row.channel ≡ some body
  pub taken : broker.perform (publish_to row.channel body) ≡ none
  pub confirmed : broker.arrival ≡ confirmation (some true)
  pub not_returned : broker.returned_too ≡ false

both :
    (first rest : Option BrokerError) → and_then first rest ≡ none → (first ≡ none) × (rest ≡ none)
both none rest h = (refl, h)
both (some e) rest h = absurd (ground arith)

awaited :
    (arrival : Arrival) (returned_too : Bool)
    → await_confirmation arrival returned_too ≡ none
    → (arrival ≡ confirmation (some true)) × (returned_too ≡ false)
unfolding await_confirmation
awaited return_first r h = absurd (ground arith)
awaited (confirmation none) r h = absurd (ground arith)
awaited (confirmation (some false)) r h = absurd (ground arith)
awaited (confirmation (some true)) true h = absurd (ground arith)
awaited (confirmation (some true)) false h = (refl, refl)
awaited close_first r h = absurd (ground arith)
awaited (context_done e) r h = absurd (ground arith)

module _ (broker : Broker) (row : Outbox) where
  body_taken :
      (b : Option Bytes)
      → publish_body broker row.channel b ≡ none
      → (body : Bytes) × (b ≡ some body) × (broker.perform (publish_to row.channel body) ≡ none)
  body_taken none h = absurd (ground arith)
  body_taken (some body) h = (body, refl, h)

  IsPublished-on : (c : Connection) → publish_on broker c row ≡ none → IsPublished broker row
  unfolding publish_on declare_topology
  IsPublished-on c h =
      let (o, h1) = both (broker.open_channel c) _ h in
      let (t, h2) = both (declare_topology broker row.channel) _ h1 in
      let (d, l) = both (broker.perform (declare row.channel none)) _ t in
      let (k, h3) = both (broker.perform confirm) _ h2 in
      let (p, h4) =
        both (publish_body broker row.channel (broker.encode row.id row.channel)) _ h3 in
      let (body, e, b) = body_taken (broker.encode row.id row.channel) p in
      let (a, r) = awaited broker.arrival broker.returned_too h4 in
      record {
        connection = c;
        body = body;
        opened = o;
        declared = d;
        delay_declared = l;
        confirming = k;
        encoded = e;
        taken = b;
        confirmed = a;
        not_returned = r;
      }

  IsPublished-by : (c : Option Connection) → publish_by broker c row ≡ none → IsPublished broker row
  unfolding publish_by
  IsPublished-by none h = absurd (ground arith)
  IsPublished-by (some c) h = IsPublished-on c h

  publish-IsPublished :
      (kept : Option Connection) → (publish broker row kept).0 ≡ none → IsPublished broker row
  unfolding publish
  publish-IsPublished kept h = IsPublished-by (mq_connection broker kept).0 h

-- The rows that were published stand first among the rows, and each was published and confirmed.
pub record ArePublished (world : RelayWorld) (rows : List Outbox) (p : Published) : Type 0 where
  pub unpublished : List Outbox
  pub in_order : rows ≡ p.rows ++ unpublished
  pub confirmed : All (λ row. IsPublished (world.broker row) row) p.rows
  pub all_if_completed : p.ending ≡ completed → unpublished ≡ []

rows_after :
    (world : RelayWorld) (row : Outbox) (rows : List Outbox) (kept : Option Connection)
    → world.stopped_before row ≡ false
    → (publish (world.broker row) row kept).0 ≡ none
    → publish_rows world (row ∷ rows) kept ≡ (
        let rest = publish_rows world rows (publish (world.broker row) row kept).1 in
        record rest { rows = row ∷ rest.rows })
unfolding publish_rows
rows_after world row rows kept s n = rw (s, n) refl

one_more :
    (world : RelayWorld) (row : Outbox) (rows : List Outbox) (kept : Option Connection)
    → world.stopped_before row ≡ false
    → (publish (world.broker row) row kept).0 ≡ none
    → ArePublished world rows (publish_rows world rows (publish (world.broker row) row kept).1)
    → ArePublished world (row ∷ rows) (publish_rows world (row ∷ rows) kept)
one_more world row rows kept s n rest = rw (rows_after world row rows kept s n) (record {
  unpublished = rest.unpublished;
  in_order = ap (λ l. row ∷ l) rest.in_order;
  confirmed = (publish-IsPublished (world.broker row) row kept n, rest.confirmed);
  all_if_completed = rest.all_if_completed;
})

-- Of the rows that were reserved, the relay publishes the first ones, each to the queue of its
-- channel with the broker's confirmation; unless it stops or breaks off, it publishes them all.
pub publish_rows-ArePublished :
    (world : RelayWorld) (rows : List Outbox) (kept : Option Connection)
    → ArePublished world rows (publish_rows world rows kept)
unfolding publish_rows
publish_rows-ArePublished world [] kept = record {
  unpublished = [];
  in_order = refl;
  confirmed = tt;
  all_if_completed = λ h. refl;
}
publish_rows-ArePublished world (row ∷ rows) kept = elim (Bool-cases (world.stopped_before row)) [
  | inl s ↦ rw s (record {
    unpublished = row ∷ rows;
    in_order = refl;
    confirmed = tt;
    all_if_completed = λ h. absurd (ground arith);
  })
  | inr s ↦ elim (Option-cases (publish (world.broker row) row kept).0) [
    | inr (e, n) ↦
        rw (s, n)
          (record {
            unpublished = row ∷ rows;
            in_order = refl;
            confirmed = tt;
            all_if_completed = λ h. absurd (ground arith);
          })
    | inl n ↦
        one_more world row rows kept s n
          (publish_rows-ArePublished world rows (publish (world.broker row) row kept).1)
  ]
]
