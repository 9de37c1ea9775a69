-- ===== src/Repo/Idempotency.antt =====
-- A keyed submission that is made again.
use kaftar.Prelude.{
  ◌≡◌, ◌≢◌, refl, sym, ◌∙◌, ap, String, none, [], ◌∷◌, ◌++◌, Bool, true, false, is_some, arith,
  str_eq, str_eq_iff, filter, any,
}
use kaftar.Entity.Time.{Time}
use kaftar.Entity.Outbox.{Outbox, Uuid, uuid_nil}
use kaftar.Repo.Errors.{ok, err, idempotency_conflict}
use kaftar.Repo.Model.{Row, Uuids, outbox_entity_to_model, outbox_model_to_entity, before_create}
use kaftar.Repo.Table.{Store, Tx, select_rows, order_by, insert_by}
use kaftar.Repo.Create.{
  conflicts, stamp, has_key, answer_existing, resolve_existing, insert_row, create,
}

-- A database that lets the calls for a row through.
pub record LetsThrough (tx : Tx) (id : String) : Type 0 where
  pub reads : tx.read_fault ≡ none
  pub writes : tx.write_fault id ≡ none

-- Two submissions with one nonempty key.
pub record SameKey (a b : Row) : Type 0 where
  pub keyed : a.message_id ≢ ""
  pub message_id : b.message_id ≡ a.message_id
  pub channel : b.channel ≡ a.channel

str_eq-ne : (s t : String) → s ≢ t → str_eq s t ≡ false
str_eq-ne s t h = ground (arith, str_eq_iff s t)

-- Where a row met no conflict, its key finds it alone once it is stored.
select_own :
    (a b : Row) (clock : Time) (s : Store)
    → SameKey a b
    → is_some a.deleted_at ≡ false
    → any (conflicts a) s ≡ false
    → select_rows (has_key b) (s ++ stamp clock a ∷ []) ≡ stamp clock a ∷ []
unfolding select_rows filter any conflicts
select_own a b clock [] k v h = ground (
  arith,
  v,
  k.message_id,
  k.channel,
  str_eq_iff a.channel b.channel,
  str_eq_iff a.message_id b.message_id,
)
select_own a b clock (x ∷ s) k v h =
    ground (
      arith,
      select_own a b clock s k v,
      k.message_id,
      k.channel,
      str_eq-ne a.message_id "" k.keyed,
    )

any_append : (p : Row → Bool) (s : Store) (r : Row) → p r ≡ true → any p (s ++ r ∷ []) ≡ true
unfolding any
any_append p [] r h = ground arith
any_append p (x ∷ s) r h = ground (arith, any_append p s r h)

conflicts_own : (a b : Row) (clock : Time) → SameKey a b → conflicts b (stamp clock a) ≡ true
unfolding conflicts
conflicts_own a b clock k = ground (
  arith,
  k.message_id,
  k.channel,
  str_eq_iff a.channel b.channel,
  str_eq_iff a.message_id b.message_id,
  str_eq_iff b.message_id "",
  λ (e : b.message_id ≡ ""). k.keyed (sym k.message_id ∙ e),
)

module _ (uuids : Uuids) (tx tx' : Tx) (a b : Row) (s : Store) (through : LetsThrough tx a.id)
    (through' : LetsThrough tx' b.id) (key : SameKey a b) (visible : is_some a.deleted_at ≡ false)
    (free : any (conflicts a) s ≡ false) where
  -- The first submission stores the row.
  pub insert_first :
      insert_row uuids tx a s
      ≡ (ok (outbox_model_to_entity uuids (stamp tx.clock a)), s ++ stamp tx.clock a ∷ [])
  unfolding insert_row
  insert_first = rw (through.writes, insert_row) (rw free refl)

  -- The second is compared with it.
  insert_again :
      insert_row uuids tx' b (s ++ stamp tx.clock a ∷ [])
      ≡ (answer_existing uuids b (stamp tx.clock a), s ++ stamp tx.clock a ∷ [])
  unfolding insert_row resolve_existing order_by insert_by
  insert_again =
      rw (through'.writes, insert_row)
        (rw (any_append (conflicts b) s (stamp tx.clock a) (conflicts_own a b tx.clock key))
          (rw (through'.reads, resolve_existing) (rw (select_own a b tx.clock s key visible free))))

  again_same :
      a.fingerprint ≢ ""
      → b.fingerprint ≡ a.fingerprint
      → insert_row uuids tx' b (insert_row uuids tx a s).1 ≡ insert_row uuids tx a s
  unfolding answer_existing
  again_same marked e = rw insert_first (
      insert_again
      ∙ ap (λ r. (r, s ++ stamp tx.clock a ∷ []))
          (ground (
            arith,
            e,
            key.message_id,
            str_eq-ne a.message_id "" key.keyed,
            str_eq-ne a.fingerprint "" marked,
            str_eq_iff a.fingerprint b.fingerprint,
          )))

  again_changed :
      b.fingerprint ≢ a.fingerprint
      → insert_row uuids tx' b (insert_row uuids tx a s).1
        ≡ (err idempotency_conflict, (insert_row uuids tx a s).1)
  unfolding answer_existing
  again_changed d = rw insert_first (
      insert_again
      ∙ ap (λ r. (r, s ++ stamp tx.clock a ∷ []))
          (ground (arith, str_eq-ne a.fingerprint b.fingerprint (λ e. d (sym e)))))

-- A submission gets the generated ID.
pub before_create-ok :
    (uuids : Uuids) (g : Uuid) (row : Row)
    → row.id ≡ uuids.print uuid_nil
    → before_create uuids (ok g) row ≡ ok (record row { id = uuids.print g })
unfolding before_create
before_create-ok uuids g row e = ground (arith, str_eq_iff row.id (uuids.print uuid_nil))

-- What a submission stores under a generated ID.
abbrev pub stored : Uuids → Uuid → Outbox → Row
stored uuids g o = record (outbox_entity_to_model uuids o) { id = uuids.print g }

pub create-insert_row :
    (uuids : Uuids) (tx : Tx) (g : Uuid) (o : Outbox) (s : Store)
    → o.id ≡ uuid_nil
    → create uuids tx (ok g) o s ≡ insert_row uuids tx (stored uuids g o) s
unfolding create
create-insert_row uuids tx g o s e = rw (
  before_create-ok uuids g (outbox_entity_to_model uuids o)
      (unfold outbox_entity_to_model in ap uuids.print e),
  create,
)

-- Two calls of Create for submissions that have no ID yet and share a channel and a nonempty key,
-- the first of which meets no conflict; the database lets both through.
pub record Repeats (uuids : Uuids) (tx tx' : Tx) (g g' : Uuid) (o o' : Outbox) (s : Store)
    : Type 0 where
  pub unnamed : o.id ≡ uuid_nil
  pub unnamed' : o'.id ≡ uuid_nil
  pub keyed : o.message_id ≢ ""
  pub same_key : o'.message_id ≡ o.message_id
  pub same_channel : o'.channel ≡ o.channel
  pub free : any (conflicts (stored uuids g o)) s ≡ false
  pub through : LetsThrough tx (uuids.print g)
  pub through' : LetsThrough tx' (uuids.print g')

module _ (uuids : Uuids) (tx tx' : Tx) (g g' : Uuid) (o o' : Outbox) (s : Store)
    (rep : Repeats uuids tx tx' g g' o o' s) where
  repeated_key : SameKey (stored uuids g o) (stored uuids g' o')
  unfolding outbox_entity_to_model
  repeated_key = record { keyed = rep.keyed; message_id = rep.same_key; channel = rep.same_channel }

  -- For two Create calls that share a channel and a nonempty key, the first of which meets no
  -- conflict and both of which the database lets through: with the same nonempty fingerprint
  -- the second returns the first call's outbox, its ID included, and leaves the table as the
  -- first call left it.
  pub create_again :
      o.fingerprint ≢ ""
      → o'.fingerprint ≡ o.fingerprint
      → create uuids tx' (ok g') o' (create uuids tx (ok g) o s).1 ≡ create uuids tx (ok g) o s
  create_again marked e = rw (create-insert_row uuids tx g o s rep.unnamed) (
      create-insert_row uuids tx' g' o' _ rep.unnamed'
      ∙ again_same uuids tx tx' (stored uuids g o) (stored uuids g' o') s rep.through rep.through'
          repeated_key (unfold outbox_entity_to_model in refl) rep.free
          (unfold outbox_entity_to_model in marked) (unfold outbox_entity_to_model in e))

  -- For two such Create calls with different fingerprints, the second is an idempotency
  -- conflict and leaves the table as the first call left it.
  pub create_conflict :
      o'.fingerprint ≢ o.fingerprint
      → create uuids tx' (ok g') o' (create uuids tx (ok g) o s).1
        ≡ (err idempotency_conflict, (create uuids tx (ok g) o s).1)
  create_conflict d = rw (create-insert_row uuids tx g o s rep.unnamed) (
      create-insert_row uuids tx' g' o' _ rep.unnamed'
      ∙ again_changed uuids tx tx' (stored uuids g o) (stored uuids g' o') s rep.through
          rep.through' repeated_key (unfold outbox_entity_to_model in refl) rep.free
          (unfold outbox_entity_to_model in d))
