-- ===== src/System/Tally.antt =====
-- The claims that were handed out for each row, counted against its attempts, and how the count
-- lives through submissions and through writes that keep the attempts.
use kaftar.Prelude.{
  ℕ, suc, ◌≤◌, ◌≡◌, refl, ◌∙◌, String, List, [], ◌∷◌, ◌++◌, true, false, if◌then◌else◌, All,
  All-mono, All-append, arith, length, str_eq, str_eq_iff, str_eq_refl, any, Bool-cases, inl, inr,
}
use kaftar.Entity.Time.{Time}
use kaftar.Entity.Channel.{Channel}
use kaftar.Entity.Outbox.{Outbox, Uuid}
use kaftar.Repo.Model.{Row, Uuids}
use kaftar.Repo.Table.{Store, Tx}
use kaftar.Repo.Create.{conflicts}
use kaftar.Repo.Delivery.{reserve_dispatch, finish, write_row}
use kaftar.Repo.Finish.{finish_store}
use kaftar.Repo.Grows.{Grows, Grows-All, length-update_rows}
use kaftar.Repo.Keys.{Distinct}
use kaftar.Repo.Lifecycle.{Evolves}
use kaftar.Repo.Reserve.{reserve_dispatch_induction}
use kaftar.Service.Accept.{Service}
use kaftar.System.Submit.{Submitted, same, added}

-- The claims that were handed out for the row with an id.
abbrev pub claims_of : Uuids → String → List Outbox → ℕ
claims_of u id [] = 0
claims_of u id (o ∷ os) =
    let rest = claims_of u id os in if str_eq id (u.print o.id) then suc rest else rest

-- The count of claims is within the row's attempts, and its id is a printed UUID.
pub record IsCounted (u : Uuids) (claims : List Outbox) (r : Row) : Type 0 where
  pub within : claims_of u r.id claims ≤ r.attempts
  pub printed : (g : Uuid) × (r.id ≡ u.print g)

-- Every claim is of a row of the table.
abbrev pub IsKnown : Uuids → Store → Outbox → Type 0
IsKnown u s o = any (λ r. str_eq r.id (u.print o.id)) s ≡ true

pub record Tally (u : Uuids) (s : Store) (claims : List Outbox) : Type 0 where
  pub counted : All (IsCounted u claims) s
  pub known : All (IsKnown u s) claims

pub any-Grows :
    (k : String) (s t : Store)
    → Grows Evolves s t
    → any (λ r. str_eq r.id k) s ≡ true
    → any (λ r. str_eq r.id k) t ≡ true
unfolding any
any-Grows k [] t g h = cc
any-Grows k (r ∷ s) [] g h = absurd g
any-Grows k (r ∷ s) (x ∷ t) g h = ground (arith, g.0.id, any-Grows k s t g.1)

pub known-All : (s : Store) → All (λ r. any (λ x. str_eq x.id r.id) s ≡ true) s
unfolding any
known-All [] = tt
known-All (r ∷ s) =
    (ground (arith, str_eq_refl r.id), All-mono (λ x h. ground (arith, h)) s (known-All s))

module _ (svc : Service) where
  pub IsKnown-Grows :
      (s t : Store)
      → Grows Evolves s t
      → (claims : List Outbox) → All (IsKnown svc.uuids s) claims
      → All (IsKnown svc.uuids t) claims
  IsKnown-Grows s t g = All-mono (λ o. any-Grows (svc.uuids.print o.id) s t g)

  -- No row is new, and attempts never fall.
  IsCounted-Grows :
      (claims : List Outbox) (s t : Store)
      → length t ≡ length s
      → Grows Evolves s t
      → All (IsCounted svc.uuids claims) s
      → All (IsCounted svc.uuids claims) t
  IsCounted-Grows claims s t =
      Grows-All Evolves (IsCounted svc.uuids claims) (IsCounted svc.uuids claims)
        (λ x y e c. record {
          within = rw e.id (omega arith);
          printed = (c.printed.0, e.id ∙ c.printed.1);
        })
        s t

  pub Tally-Grows :
      (claims : List Outbox) (s t : Store)
      → length t ≡ length s
      → Grows Evolves s t
      → Tally svc.uuids s claims
      → Tally svc.uuids t claims
  Tally-Grows claims s t e g c = record {
    counted = IsCounted-Grows claims s t e g c.counted;
    known = IsKnown-Grows s t g claims c.known;
  }

  pub length-reserve_dispatch :
      (tx : Tx) (c : Channel) (now : Time) (interval limit : ℕ) (s : Store)
      → Distinct s
      → length (reserve_dispatch svc.uuids tx c now interval limit s).1 ≡ length s
  length-reserve_dispatch tx c now interval =
      reserve_dispatch_induction svc.uuids tx c now interval (λ s t. length t ≡ length s)
        (λ s. refl) (λ s t u p q. q ∙ p)
        (λ r s due only. unfold write_row in length-update_rows _ _ s)

  pub length-finish :
      (tx : Tx) (o : Outbox) (now : Time) (s : Store)
      → length (finish svc.uuids tx o now s).1 ≡ length s
  length-finish tx o now s =
      finish_store svc.uuids tx o now s (λ t. length t ≡ length s) refl (length-update_rows _ _ s)

  conflict_free :
      (row : Row) (k : String) (s : Store)
      → row.id ≡ k
      → any (conflicts row) s ≡ false
      → any (λ r. str_eq r.id k) s ≡ false
  unfolding any conflicts
  conflict_free row k [] e h = refl
  conflict_free row k (x ∷ s) e h = ground (arith, e, conflict_free row k s e)

  -- A row that was not there has no claims.
  unclaimed_new :
      (row : Row) (s : Store) (claims : List Outbox)
      → any (conflicts row) s ≡ false
      → All (IsKnown svc.uuids s) claims
      → claims_of svc.uuids row.id claims ≡ 0
  unclaimed_new row s [] free k = refl
  unclaimed_new row s (o ∷ claims) free k =
      elim (Bool-cases (str_eq row.id (svc.uuids.print o.id))) [
        | inr other ↦ rw other (unclaimed_new row s claims free k.1)
        | inl hit ↦
            cc (k.0, conflict_free row (svc.uuids.print o.id) s ((str_eq_iff _ _).0 hit) free)
      ]

  known_self :
      (k : String) (s : Store) (row : Row)
      → row.id ≡ k
      → any (λ r. str_eq r.id k) (s ++ row ∷ []) ≡ true
  unfolding any
  known_self k [] row e = ground (arith, (str_eq_iff row.id k).1 e)
  known_self k (x ∷ s) row e = ground (arith, known_self k s row e)

  pub Tally-Submitted :
      (tx : Tx) (claims : List Outbox) (s t : Store)
      → Submitted svc tx s t
      → Grows Evolves s t
      → Tally svc.uuids s claims
      → Tally svc.uuids t claims
  Tally-Submitted tx claims s t same g c = c
  Tally-Submitted tx claims s t (added row n id e free) g c = record {
    counted = All-append (IsCounted svc.uuids claims) s (row ∷ []) c.counted (
      record {
        within = rw (unclaimed_new row s claims free c.known) (omega arith);
        printed = (id, e);
      },
      tt,
    );
    known = IsKnown-Grows s _ g claims c.known;
  }
