-- ===== src/System/Submit.antt =====
-- An accepted submission appends one sound row with an id of its own, or changes nothing.
use kaftar.Prelude.{
  ◌≡◌, ◌≢◌, ◌&&◌, not, refl, sym, none, [], ◌∷◌, ◌++◌, false, arith, All, All-append, Option-cases,
  Bool-cases, inl, inr, str_eq_iff, any, ℤ, pos, negsuc, ◌⊎◌,
}
use kaftar.Entity.Time.{Time}
use kaftar.Entity.State.{pending}
use kaftar.Entity.Outbox.{Outbox, Uuid, uuid_nil}
use kaftar.Entity.Message.{Message}
use kaftar.Repo.Errors
use kaftar.Repo.Model.{Row, outbox_entity_to_model, before_create}
use kaftar.Repo.Table.{Store, Tx}
use kaftar.Repo.Create.{create, insert_row, after_fault, conflicts, stamp}
use kaftar.Repo.Grows.{Grows-append}
use kaftar.Repo.Keys.{Distinct}
use kaftar.Repo.Lifecycle.{Evolves, Evolves-refl}
use kaftar.Repo.Sound.{IsSound, Within}
use kaftar.Service.Errors.{Result, ServiceError, ok, err}
use kaftar.Service.Accept.{Service, SendOptions, Submission, accept, prepare, new_outbox}
use kaftar.System.Preserve.{Agrees, Preserves, Preserves-refl}
use kaftar.System.Dispatch.{AnyClaim}

-- A row as accept makes it.
pub record IsNew (r : Row) : Type 0 where
  pub state : r.state ≡ pending
  pub attempts : r.attempts ≡ 0
  pub lease_token : r.lease_token ≡ ""
  pub lease_until : r.lease_until ≡ none

module _ (svc : Service) (tx : Tx) where
  Within-zero : (z : ℤ) → Within z 0
  Within-zero (pos m) = omega arith
  Within-zero (negsuc m) = tt

  IsNew-IsSound : (r : Row) → IsNew r → IsSound r
  IsNew-IsSound r n = record {
    budget = rw n.attempts (Within-zero r.max_retries);
    counted = λ h. ground (arith, n.state);
    leased = λ h. ground (arith, n.state);
    released = λ h. (n.lease_token, n.lease_until);
    delivered = λ h. ground (arith, n.state);
    buried = λ h. ground (arith, n.state);
  }

  no-conflict : (row : Row) (s : Store) → any (conflicts row) s ≡ false → All (λ x. x.id ≢ row.id) s
  unfolding any conflicts
  no-conflict row [] h = tt
  no-conflict row (x ∷ s) h =
      ((λ e. ground (arith, (str_eq_iff x.id row.id).1 e)), no-conflict row s (ground arith))

  Distinct-append :
      (row : Row) (s : Store) → All (λ x. x.id ≢ row.id) s → Distinct s → Distinct (s ++ row ∷ [])
  Distinct-append row [] h d = (tt, tt)
  Distinct-append row (x ∷ s) h d = (
    All-append (λ y. y.id ≢ x.id) s (row ∷ []) d.0 ((λ e. h.0 (sym e)), tt),
    Distinct-append row s h.1 d.1,
  )

  append-Preserves :
      (row : Row) (s : Store)
      → IsNew row
      → All (λ x. x.id ≢ row.id) s
      → Preserves AnyClaim s (s ++ row ∷ [])
  append-Preserves row s n h = record {
    distinct = Distinct-append row s h;
    evolves = Grows-append Evolves Evolves-refl s (row ∷ []);
    sound = λ a. All-append IsSound s (row ∷ []) a (IsNew-IsSound row n, tt);
    agree = λ o k a. All-append (Agrees o) s (row ∷ []) a ((λ live. ground (arith, n.state)), tt);
  }

  -- The table after a submission: as it was, or with one new row.
  pub data Submitted (s : Store) : Store → Type 0 where
    same : Submitted s s
    added :
        (row : Row)
        → IsNew row
        → (g : Uuid) → row.id ≡ svc.uuids.print g
        → any (conflicts row) s ≡ false
        → Submitted s (s ++ row ∷ [])

  pub stamp-IsNew : (row : Row) → IsNew row → IsNew (stamp tx.clock row)
  stamp-IsNew row m = record {
    state = m.state;
    attempts = m.attempts;
    lease_token = m.lease_token;
    lease_until = m.lease_until;
  }

  after_fault-Submitted :
      (row : Row) (s : Store)
      → IsNew row
      → (g : Uuid) → row.id ≡ svc.uuids.print g
      → Submitted s (after_fault svc.uuids tx row s)
  unfolding after_fault
  after_fault-Submitted row s n g e =
      elim (Bool-cases (tx.committed row.id && not (any (conflicts row) s))) [
        | inr lost ↦ rw (lost, after_fault) same
        | inl there ↦
            rw (there, after_fault)
              (added (stamp tx.clock row) (stamp-IsNew row n) g e
                (unfold conflicts in ground (arith, there)))
      ]

  insert_row-Submitted :
      (row : Row) (s : Store)
      → IsNew row
      → (g : Uuid) → row.id ≡ svc.uuids.print g
      → Submitted s (insert_row svc.uuids tx row s).1
  unfolding insert_row
  insert_row-Submitted row s n g e = elim (Option-cases (tx.write_fault row.id)) [
    | inr (x, f) ↦ rw (f, insert_row) (after_fault-Submitted row s n g e)
    | inl f ↦
        rw (f, insert_row)
          (elim (Bool-cases (any (conflicts row) s)) [
            | inl taken ↦ rw taken same
            | inr free ↦
                rw free
                  (added (stamp tx.clock row) (stamp-IsNew row n) g e (unfold conflicts in free))
          ])
  ]

  pub generated_id :
      (g : Uuid) (row : Row)
      → row.id ≡ svc.uuids.print uuid_nil
      → before_create svc.uuids (Errors.ok g) row
        ≡ Errors.ok (record row { id = svc.uuids.print g })
  unfolding before_create
  generated_id g row e = ground (arith, str_eq_iff row.id (svc.uuids.print uuid_nil))

  pub no_id :
      (e : Errors.RepoError) (row : Row)
      → row.id ≡ svc.uuids.print uuid_nil
      → before_create svc.uuids (Errors.err e) row ≡ Errors.err e
  unfolding before_create
  no_id e row h = ground (arith, str_eq_iff row.id (svc.uuids.print uuid_nil))

  create-Submitted :
      (generated : Errors.Result Uuid) (o : Outbox) (s : Store)
      → (outbox_entity_to_model svc.uuids o).id ≡ svc.uuids.print uuid_nil
      → IsNew (outbox_entity_to_model svc.uuids o)
      → Submitted s (create svc.uuids tx generated o s).1
  unfolding create
  create-Submitted (Errors.err e) o s nil n =
      rw (no_id e (outbox_entity_to_model svc.uuids o) nil, create) same
  create-Submitted (Errors.ok g) o s nil n =
      rw (generated_id g (outbox_entity_to_model svc.uuids o) nil, create)
        (insert_row-Submitted
          (record (outbox_entity_to_model svc.uuids o) { id = svc.uuids.print g }) s
          (record {
            state = n.state;
            attempts = n.attempts;
            lease_token = n.lease_token;
            lease_until = n.lease_until;
          })
          g refl)

  pub accept-Submitted :
      (generated : Errors.Result Uuid) (now : Time) (message : Message) (options : SendOptions)
      (s : Store)
      → Submitted s (accept svc tx generated now message options s).1
  unfolding accept
  accept-Submitted generated now message options s =
      elim (prepared_cases (prepare svc message options)) [
        | inl (e, refused) ↦ rw (refused, accept) same
        | inr (prepared, fine) ↦
            rw (fine, accept)
              (create-Submitted generated (new_outbox svc prepared now) s
                (unfold outbox_entity_to_model new_outbox in refl)
                (unfold outbox_entity_to_model new_outbox in
                  record { state = refl; attempts = refl; lease_token = refl; lease_until = refl }))
      ]
    where
      prepared_cases :
          (r : Result Submission)
          → ((e : ServiceError) × (r ≡ err e)) ⊎ ((p : Submission) × (r ≡ ok p))
      prepared_cases (err e) = inl (e, refl)
      prepared_cases (ok p) = inr (p, refl)

  pub Submitted-Preserves : (s t : Store) → Submitted s t → Preserves AnyClaim s t
  Submitted-Preserves s t same = Preserves-refl AnyClaim s
  Submitted-Preserves s t (added row n g e free) = append-Preserves row s n (no-conflict row s free)
