-- ===== src/Service/Retransmission.antt =====
-- A client that repeats its submission with one idempotency key.
use kaftar.Prelude.{◌∙◌, ◌≡◌, ◌≢◌, refl, ap, false, any}
use kaftar.Entity.Time.{Time}
use kaftar.Entity.Outbox.{Uuid}
use kaftar.Entity.Message.{Message}
use kaftar.Repo.Errors
use kaftar.Repo.Table.{Store, Tx}
use kaftar.Repo.Create.{create, conflicts}
use kaftar.Repo.Idempotency.{LetsThrough, stored, create_again}
use kaftar.Service.Errors.{ok}
use kaftar.Service.Accept.{Service, SendOptions, Submission, prepare, new_outbox, saved_id, accept}

-- The first of two submissions of one message meets no conflict, and the database lets both through.
pub record Repeated (svc : Service) (tx tx' : Tx) (g g' : Uuid) (now : Time) (message : Message)
    (options : SendOptions) (s : Store) : Type 0 where
  pub prepared : Submission
  pub valid : prepare svc message options ≡ ok prepared
  pub keyed : prepared.key ≢ ""
  pub marked : prepared.fingerprint ≢ ""
  pub free : any (conflicts (stored svc.uuids g (new_outbox svc prepared now))) s ≡ false
  pub through : LetsThrough tx (svc.uuids.print g)
  pub through' : LetsThrough tx' (svc.uuids.print g')

pub accept-create :
    (svc : Service) (tx : Tx) (g : Uuid) (now : Time) (message : Message) (options : SendOptions)
    (s : Store) (p : Submission)
    → prepare svc message options ≡ ok p
    → accept svc tx (Errors.ok g) now message options s ≡ (
      saved_id svc (create svc.uuids tx (Errors.ok g) (new_outbox svc p now) s).0,
      (create svc.uuids tx (Errors.ok g) (new_outbox svc p now) s).1,
    )
unfolding accept
accept-create svc tx g now message options s p h = rw (h, accept) refl

-- Accepting the same message again with the same options, at another time, gives the client the
-- same ID and adds no row, if the key and the fingerprint are not empty, the first acceptance met no
-- conflict, and the database lets both through.
pub accept_again :
    (svc : Service) (tx tx' : Tx) (g g' : Uuid) (now now' : Time) (message : Message)
    (options : SendOptions) (s : Store)
    → Repeated svc tx tx' g g' now message options s
    → accept svc tx'
        (Errors.ok g')
        now'
        message
        options
        (accept svc tx (Errors.ok g) now message options s).1
      ≡ accept svc tx (Errors.ok g) now message options s
accept_again svc tx tx' g g' now now' message options s r =
    rw (accept-create svc tx g now message options s r.prepared r.valid) (
      accept-create svc tx' g' now' message options _ r.prepared r.valid
      ∙ ap (λ c. (saved_id svc c.0, c.1))
          (create_again svc.uuids tx tx' g g' (new_outbox svc r.prepared now)
            (new_outbox svc r.prepared now') s
            (unfold new_outbox in
              record {
                unnamed = refl;
                unnamed' = refl;
                keyed = r.keyed;
                same_key = refl;
                same_channel = refl;
                free = r.free;
                through = r.through;
                through' = r.through';
              })
            (unfold new_outbox in r.marked) (unfold new_outbox in refl)))
