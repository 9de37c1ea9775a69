-- ===== src/Api/Effects.antt =====
-- What a reply says about the table.
use kaftar.Prelude.{
  ℕ, String, ◌≡◌, ◌≢◌, ◌⊎◌, refl, sym, ap, arith, inl, inr, Option, some, [], ◌∷◌, ◌++◌, true,
  false, ◌&&◌, not, Bool-cases, Option-cases, any,
}
use kaftar.Entity.Time.{Time}
use kaftar.Entity.Outbox.{Outbox, Uuid, uuid_nil}
use kaftar.Entity.Message.{Bytes, Message, channel_of}
use kaftar.Repo.Errors
use kaftar.Repo.Model.{Row, outbox_entity_to_model}
use kaftar.Repo.Table.{Store, Tx}
use kaftar.Repo.Create.{conflicts, stamp, resolve_existing, after_fault, insert_row, create}
use kaftar.Service.Errors.{Result, ServiceError, ok, err, repo}
use kaftar.Service.Accept.{
  Service, SendOptions, Submission, prepare, new_outbox, saved_id, accept, send, has_sender,
}
use kaftar.System.Submit.{IsNew, stamp-IsNew, generated_id, no_id}
use kaftar.Api.Reply.{code, submission_error, Parsers, Step, go, stop}
use kaftar.Api.Send.{SendRoute, reply_sent, route, submit, serve_send}

abbrev pub IsError : {A : Type 0} → Result A → Type 0
IsError (ok a) = ⊥
IsError (err e) = Unit

-- An insertion that the database reports as failed with this text, and has committed: the table
-- has a new row besides, which waits for its first attempt.
pub record IsUncertain (tx : Tx) (s t : Store) (text : String) : Type 0 where
  pub row : Row
  pub fresh : IsNew row
  pub reported : tx.write_fault row.id ≡ some text
  pub committed : tx.committed row.id ≡ true
  pub apart : any (conflicts row) s ≡ false
  pub added : t ≡ s ++ row ∷ []

-- What is left of a submission that ended with an error.
abbrev RepoLost : Tx → Store → Errors.RepoError → Store → Type 0
RepoLost tx s e t =
    (t ≡ s) ⊎ ((text : String) × (e ≡ Errors.database text) × IsUncertain tx s t text)

abbrev Lost : Tx → Store → ServiceError → Store → Type 0
Lost tx s e t =
    (t ≡ s) ⊎ ((text : String) × (e ≡ repo (Errors.database text)) × IsUncertain tx s t text)

abbrev Spares : {A : Type 0} → Tx → Store → Result A × Store → Type 0
Spares tx s (ok a, t) = Unit
Spares tx s (err e, t) = Lost tx s e t

abbrev RepoSpares : Tx → Store → Errors.Result Outbox × Store → Type 0
RepoSpares tx s (Errors.ok a, t) = Unit
RepoSpares tx s (Errors.err e, t) = RepoLost tx s e t

-- What a reply with this code leaves: the table as it was, or, with code 500, one that an uncertain
-- insertion has extended.
pub data IsUnsaved (tx : Tx) (s : Store) (status : ℕ) (t : Store) : Type 0 where
  unchanged : t ≡ s → IsUnsaved tx s status t
  uncertain : (text : String) → status ≡ 500 → IsUncertain tx s t text → IsUnsaved tx s status t

module _ (svc : Service) (tx : Tx) where
  untouched : (r : Errors.Result Outbox) (s : Store) → RepoSpares tx s (r, s)
  untouched (Errors.ok a) s = tt
  untouched (Errors.err e) s = inl refl

  after_fault-lost :
      (text : String) (row : Row) (s : Store)
      → IsNew row
      → tx.write_fault row.id ≡ some text
      → RepoLost tx s (Errors.database text) (after_fault svc.uuids tx row s)
  unfolding after_fault
  after_fault-lost text row s n f =
      elim (Bool-cases (tx.committed row.id && not (any (conflicts row) s))) [
        | inr lost ↦ rw (lost, after_fault) (inl refl)
        | inl there ↦
            rw (there, after_fault)
              (inr (
                text,
                refl,
                record {
                  row = stamp tx.clock row;
                  fresh = stamp-IsNew svc tx row n;
                  reported = f;
                  committed = ground (arith, there);
                  apart = unfold conflicts in ground (arith, there);
                  added = refl;
                },
              ))
      ]

  insert_row-spares :
      (row : Row) (s : Store) → IsNew row → RepoSpares tx s (insert_row svc.uuids tx row s)
  unfolding insert_row
  insert_row-spares row s n = elim (Option-cases (tx.write_fault row.id)) [
    | inr (x, f) ↦ rw (f, insert_row) (after_fault-lost x row s n f)
    | inl f ↦ elim (Bool-cases (any (conflicts row) s)) [
      | inl taken ↦ rw (f, taken, insert_row) (untouched (resolve_existing svc.uuids tx row s) s)
      | inr free ↦ rw (f, free, insert_row) tt
    ]
  ]

  create-spares :
      (generated : Errors.Result Uuid) (o : Outbox) (s : Store)
      → (outbox_entity_to_model svc.uuids o).id ≡ svc.uuids.print uuid_nil
      → IsNew (outbox_entity_to_model svc.uuids o)
      → RepoSpares tx s (create svc.uuids tx generated o s)
  unfolding create
  create-spares (Errors.err e) o s nil n =
      rw (no_id svc tx e (outbox_entity_to_model svc.uuids o) nil, create) (inl refl)
  create-spares (Errors.ok g) o s nil n =
      rw (generated_id svc tx g (outbox_entity_to_model svc.uuids o) nil, create)
        (insert_row-spares (record (outbox_entity_to_model svc.uuids o) { id = svc.uuids.print g })
          s
          (record {
            state = n.state;
            attempts = n.attempts;
            lease_token = n.lease_token;
            lease_until = n.lease_until;
          }))

  saved-Spares :
      (r : Errors.Result Outbox × Store) (s : Store)
      → RepoSpares tx s r
      → Spares tx s (saved_id svc r.0, r.1)
  saved-Spares (Errors.ok a, t) s h = tt
  saved-Spares (Errors.err e, t) s (inl same) = inl same
  saved-Spares (Errors.err e, t) s (inr (text, k, u)) = inr (text, ap repo k, u)

  accept-Spares :
      (generated : Errors.Result Uuid) (now : Time) (message : Message) (options : SendOptions)
      (s : Store)
      → Spares tx s (accept svc tx generated now message options s)
  unfolding accept
  accept-Spares generated now message options s = prepared (prepare svc message options) refl
    where
      prepared :
          (p : Result Submission)
          → p ≡ prepare svc message options
          → Spares tx s (accept svc tx generated now message options s)
      prepared (err e) h = rw (sym h, accept) (inl refl)
      prepared (ok p) h =
          rw (sym h, accept)
            (saved-Spares (create svc.uuids tx generated (new_outbox svc p now) s) s (
              create-spares generated (new_outbox svc p now) s
                (unfold outbox_entity_to_model new_outbox in refl)
                (unfold outbox_entity_to_model new_outbox in
                  record {
                    state = refl;
                    attempts = refl;
                    lease_token = refl;
                    lease_until = refl;
                  })))

  send-Spares :
      (generated : Errors.Result Uuid) (now : Time) (message : Message) (options : SendOptions)
      (s : Store)
      → Spares tx s (
        (send svc tx generated now (some message) options s).0,
        (send svc tx generated now (some message) options s).1,
      )
  unfolding send
  send-Spares generated now message options s = elim (Bool-cases svc.stopping) [
    | inl down ↦ rw (down, send) (inl refl)
    | inr up ↦ elim (Bool-cases (has_sender svc (channel_of message))) [
      | inl served ↦ rw (up, served, send) (accept-Spares generated now message options s)
      | inr missing ↦ rw (up, missing, send) (inl refl)
    ]
  ]

  reply-error :
      (r : Result String) (t s : Store)
      → Spares tx s (r, t)
      → code (reply_sent r) ≢ 200
      → IsUnsaved tx s (code (reply_sent r)) t
  unfolding reply_sent code submission_error
  reply-error (ok id) t s h n = absurd (n refl)
  reply-error (err e) t s (inl same) n = unchanged same
  reply-error (err e) t s (inr (text, k, u)) n = uncertain text (rw (k) refl) u

  module _ (generated : Errors.Result Uuid) (now : Time) where
    submitted-error :
        (p : Step (Message × SendOptions)) (s : Store)
        → code (submit svc tx generated now p s).0 ≢ 200
        → IsUnsaved tx s
            (code (submit svc tx generated now p s).0)
            (submit svc tx generated now p s).1
    unfolding submit
    submitted-error (stop reply) s n = unchanged refl
    submitted-error (go (message, options)) s n =
        reply-error (send svc tx generated now (some message) options s).0
          (send svc tx generated now (some message) options s).1 s
          (send-Spares generated now message options s) n

    -- A POST request on any of the five routes that is not answered with 200 leaves the table as it
    -- was, unless the database reports the insertion as failed and has committed it all the same:
    -- then the answer is 500, and the table has one new row besides, which waits for its first
    -- attempt.
    pub serve_send-error :
        (parsers : Parsers) (decode : String → Option Bytes) (request : SendRoute) (s : Store)
        → code (serve_send svc tx generated now parsers decode request s).0 ≢ 200
        → IsUnsaved tx s
            (code (serve_send svc tx generated now parsers decode request s).0)
            (serve_send svc tx generated now parsers decode request s).1
    unfolding serve_send
    serve_send-error parsers decode request s = submitted-error (route parsers decode request) s
