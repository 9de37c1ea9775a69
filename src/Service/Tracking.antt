-- ===== src/Service/Tracking.antt =====
-- A client that asks for the status of what it submitted.
use kaftar.Prelude.{
  String, ◌≡◌, refl, none, some, [], ◌∷◌, ◌++◌, false, is_some, arith, str_eq, str_eq_refl, filter,
  any,
}
use kaftar.Entity.Time.{Time}
use kaftar.Entity.Channel
use kaftar.Entity.State
use kaftar.Entity.State.{pending, other}
use kaftar.Entity.Outbox.{OutboxStatus, Uuid, status}
use kaftar.Entity.Message.{Message, channel_of}
use kaftar.Repo.Errors
use kaftar.Repo.Model.{Row, Uuids, matches_filter, outbox_entity_to_model, outbox_model_to_entity}
use kaftar.Repo.Table.{Store, Tx, select_rows}
use kaftar.Repo.Create.{conflicts, stamp, insert_row, get}
use kaftar.Repo.Idempotency.{stored, create-insert_row}
use kaftar.Service.Errors.{ok}
use kaftar.Service.Accept.{Service, SendOptions, Submission, prepare, new_outbox, accept}
use kaftar.Service.Prepared.{limit_of, prepare-IsOf}
use kaftar.Service.Workers.{service_status, only_status, by_id}
use kaftar.Service.Retransmission.{accept-create}

-- A submission that is valid and meets no conflict, and whose ID the UUID library prints as a
-- nonempty text that parses back; the database lets the submission and the question through.
pub record Asked (svc : Service) (tx tx' : Tx) (g : Uuid) (now : Time) (message : Message)
    (options : SendOptions) (s : Store) : Type 0 where
  pub prepared : Submission
  pub valid : prepare svc message options ≡ ok prepared
  pub free : any (conflicts (stored svc.uuids g (new_outbox svc prepared now))) s ≡ false
  pub writes : tx.write_fault (svc.uuids.print g) ≡ none
  pub reads : tx'.read_fault ≡ none
  pub parses : svc.uuids.parse (svc.uuids.print g) ≡ some g
  pub printed : str_eq (svc.uuids.print g) "" ≡ false

matches_id :
    (id : String) (r : Row) → str_eq id "" ≡ false → matches_filter (by_id id) r ≡ str_eq r.id id
unfolding matches_filter State.is_valid Channel.is_valid
matches_id id r h = ground arith

-- The row alone has its id, where it met no conflict.
select_stored :
    (row : Row) (clock : Time) (s : Store)
    → str_eq row.id "" ≡ false
    → is_some row.deleted_at ≡ false
    → any (conflicts row) s ≡ false
    → select_rows (matches_filter (by_id row.id)) (s ++ stamp clock row ∷ []) ≡ stamp clock row ∷ []
unfolding select_rows filter any conflicts
select_stored row clock [] h v f =
    ground (arith, v, matches_id row.id (stamp clock row) h, str_eq_refl row.id)
select_stored row clock (x ∷ s) h v f =
    ground (arith, select_stored row clock s h v, matches_id row.id x h)

inserted :
    (uuids : Uuids) (tx : Tx) (row : Row) (s : Store)
    → tx.write_fault row.id ≡ none
    → any (conflicts row) s ≡ false
    → insert_row uuids tx row s ≡ (
      Errors.ok (outbox_model_to_entity uuids (stamp tx.clock row)),
      s ++ stamp tx.clock row ∷ [],
    )
unfolding insert_row
inserted uuids tx row s w f = rw (w, insert_row) (rw f refl)

found_alone :
    (uuids : Uuids) (tx : Tx) (row : Row) (clock : Time) (s : Store) (g : Uuid)
    → tx.read_fault ≡ none
    → uuids.parse row.id ≡ some g
    → str_eq row.id "" ≡ false
    → is_some row.deleted_at ≡ false
    → any (conflicts row) s ≡ false
    → service_status uuids tx row.id (s ++ stamp clock row ∷ [])
      ≡ Errors.ok (status (outbox_model_to_entity uuids (stamp clock row)))
unfolding service_status get only_status
found_alone uuids tx row clock s g r p n v f =
    rw (p, service_status) (rw (r, get) (rw (select_stored row clock s n v f, only_status) refl))

-- A valid submission that meets no conflict, under an ID that is printed as a nonempty text and
-- parses back, where the database lets it and the question through: the client gets that ID, and the
-- status under it is of the message's channel, pending, without a retry, and with the
-- limit of the options, where a negative limit is none.
pub accept-status :
    (svc : Service) (tx tx' : Tx) (g : Uuid) (now : Time) (message : Message)
    (options : SendOptions) (s : Store) (a : Asked svc tx tx' g now message options s)
    → ((accept svc tx (Errors.ok g) now message options s).0 ≡ ok (svc.uuids.print g))
      × ((answer : OutboxStatus) × (service_status svc.uuids tx'
              (svc.uuids.print g)
              (accept svc tx (Errors.ok g) now message options s).1
            ≡ Errors.ok answer)
          × (answer.id ≡ g)
          × (answer.channel ≡ channel_of message)
          × (answer.state ≡ pending)
          × (answer.retry_count ≡ 0)
          × (answer.max_retries ≡ limit_of options.max_retries))
unfolding status outbox_model_to_entity outbox_entity_to_model new_outbox
accept-status svc tx tx' g now message options s a =
    let o = new_outbox svc a.prepared now in
    let row = stored svc.uuids g o in
    let kept = prepare-IsOf svc message options a.prepared a.valid in
    rw
      (
        accept-create svc tx g now message options s a.prepared a.valid,
        create-insert_row svc.uuids tx g o s refl,
        inserted svc.uuids tx row s a.writes a.free,
      )
      (
        rw (a.parses) refl,
        (
          status (outbox_model_to_entity svc.uuids (stamp tx.clock row)),
          found_alone svc.uuids tx' row tx.clock s g a.reads a.parses a.printed refl a.free,
          rw (a.parses) refl,
          kept.channel,
          refl,
          refl,
          kept.limit,
        ),
      )
