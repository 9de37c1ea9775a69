-- ===== src/System/Preserve.antt =====
-- What one write keeps of a table: distinct ids, the history and the soundness of the rows, and
-- their agreement with the outboxes that Claim handed out.
use kaftar.Prelude.{
  ◌≡◌, ◌≢◌, refl, ◌∙◌, sym, [], ◌∷◌, Bool, true, All, All-of, str_eq, str_eq_iff, subst, not,
  is_some, ◌&&◌, if◌then◌else◌, false,
}
use kaftar.Entity.State.{is_sending}
use kaftar.Entity.Outbox.{Outbox}
use kaftar.Repo.Model.{Row}
use kaftar.Repo.Table.{Store, Tx, update_rows}
use kaftar.Repo.Delivery.{write_row, transition_values}
use kaftar.Repo.Grows.{Grows, Grows-refl, Grows-trans, Grows-update_rows, All-update_rows}
use kaftar.Repo.Keys.{Distinct, Only}
use kaftar.Repo.Lifecycle.{Evolves, Evolves-refl, Evolves-trans}
use kaftar.Repo.Sound.{IsSound}

-- A row under the lease of a claim has what the claim was handed.
abbrev pub Agrees : Outbox → Row → Type 0
Agrees o r =
    is_sending r.state ≡ true
    → r.lease_token ≡ o.lease_token
    → (r.attempts ≡ o.attempts) × (r.retry_count ≡ o.retry_count)

-- `K` says of which claims the agreement is kept.
pub record Preserves (K : Outbox → Type 0) (s t : Store) : Type 0 where
  pub distinct : Distinct s → Distinct t
  pub evolves : Grows Evolves s t
  pub sound : All IsSound s → All IsSound t
  pub agree : (o : Outbox) → K o → All (Agrees o) s → All (Agrees o) t

module _ (K : Outbox → Type 0) where
  pub Preserves-refl : (s : Store) → Preserves K s s
  Preserves-refl s = record {
    distinct = λ d. d;
    evolves = Grows-refl Evolves Evolves-refl s;
    sound = λ a. a;
    agree = λ o k a. a;
  }

  pub Preserves-trans : (s t u : Store) → Preserves K s t → Preserves K t u → Preserves K s u
  Preserves-trans s t u p q = record {
    distinct = λ d. q.distinct (p.distinct d);
    evolves = Grows-trans Evolves Evolves-trans s t u p.evolves q.evolves;
    sound = λ a. q.sound (p.sound a);
    agree = λ o k a. q.agree o k (p.agree o k a);
  }

  -- What a write has to do to the row that it meets.
  pub record Writes (v r : Row) (tx : Tx) : Type 0 where
    pub id : v.id ≡ r.id
    pub evolves : Evolves r (transition_values v tx.clock r)
    pub sound : IsSound r → IsSound (transition_values v tx.clock r)
    pub agree : (o : Outbox) → K o → Agrees o r → Agrees o (transition_values v tx.clock r)

ids_kept :
    (P : Row → Type 0) (p : Row → Bool) (f : Row → Row)
    → ((r : Row) → P r → P (f r))
    → (s : Store) → All P s
    → All P (update_rows p f s)
ids_kept P p f h s a =
    All-update_rows P P p f s (All-of (λ r. P r → P r) (λ r k. k) s)
      (All-of (λ r. p r ≡ true → P r → P (f r)) (λ r _. h r) s) a

id-choice :
    (b : Bool) (f : Row → Row)
    → ((r : Row) → (f r).id ≡ r.id)
    → (r : Row) → (if b then f r else r).id ≡ r.id
id-choice true f h r = h r
id-choice false f h r = refl

-- An update that keeps ids keeps them distinct.
pub Distinct-update_rows :
    (p : Row → Bool) (f : Row → Row)
    → ((r : Row) → (f r).id ≡ r.id)
    → (s : Store) → Distinct s
    → Distinct (update_rows p f s)
unfolding update_rows
Distinct-update_rows p f h [] d = tt
Distinct-update_rows p f h (r ∷ s) d = (
  rw (id-choice (not (is_some r.deleted_at) && p r) f h r)
      (ids_kept (λ x. x.id ≢ r.id) p f (λ x k e. k (sym (h x) ∙ e)) s d.0),
  Distinct-update_rows p f h s d.1,
)

module _ (K : Outbox → Type 0) (tx : Tx) (v r : Row) (w : Writes K v r tx) where
  -- A property that the write gives to its row holds at every row that it meets.
  at_target :
      (P : Row → Row → Type 0)
      → P r (transition_values v tx.clock r)
      → (s : Store) → Only r s
      → All (λ x. str_eq x.id v.id ≡ true → P x (transition_values v tx.clock x)) s
  at_target P h [] o = tt
  at_target P h (x ∷ s) o = (
    (λ hit.
        subst (λ y. P y (transition_values v tx.clock y))
          (sym (o.0 ((str_eq_iff x.id v.id).0 hit ∙ w.id))) h),
    at_target P h s o.1,
  )

  pub write_row-Preserves : (s : Store) → Only r s → Preserves K s (write_row tx v s)
  unfolding write_row
  write_row-Preserves s o = record {
    distinct =
        Distinct-update_rows (λ x. str_eq x.id v.id) (transition_values v tx.clock)
          (λ x. unfold transition_values in refl) s;
    evolves =
        Grows-update_rows Evolves (λ x. str_eq x.id v.id) (transition_values v tx.clock)
          Evolves-refl s (at_target Evolves w.evolves s o);
    sound =
        All-update_rows IsSound IsSound (λ x. str_eq x.id v.id) (transition_values v tx.clock) s
          (All-of (λ x. IsSound x → IsSound x) (λ x h. h) s)
          (at_target (λ x y. IsSound x → IsSound y) w.sound s o);
    agree = λ c k.
        All-update_rows (Agrees c) (Agrees c) (λ x. str_eq x.id v.id) (transition_values v tx.clock)
          s (All-of (λ x. Agrees c x → Agrees c x) (λ x h. h) s)
          (at_target (λ x y. Agrees c x → Agrees c y) (w.agree c k) s o);
  }
