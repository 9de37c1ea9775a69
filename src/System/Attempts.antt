-- ===== src/System/Attempts.antt =====
-- How often the provider can be called for one message: every call needs an outbox that Claim
-- handed out, and the claims of a row are counted by its attempts.
use kaftar.Prelude.{
  ℕ, ◌≤◌, ◌≡◌, ◌≢◌, refl, sym, ◌∙◌, subst, String, Option, none, some, List, [], ◌∷◌, Bool, true,
  false, not, is_some, ◌&&◌, if◌then◌else◌, All, arith, str_eq, str_eq_iff, str_eq_refl, any, ℤ,
  pos, negsuc, Bool-cases, inl, inr,
}
use kaftar.Entity.Time.{Time}
use kaftar.Entity.Channel.{Channel}
use kaftar.Entity.Outbox.{Outbox, Uuid}
use kaftar.Repo.Errors
use kaftar.Repo.Model.{Row, Uuids, UuidLaws, outbox_model_to_entity}
use kaftar.Repo.Table.{Store, Tx}
use kaftar.Repo.Delivery.{claim, write_row, take_lease, transition_values}
use kaftar.Repo.Claim.{HandsNone, claim_cases}
use kaftar.Repo.Grows.{Grows, length-update_rows}
use kaftar.Repo.Keys.{Distinct, Only}
use kaftar.Repo.Lifecycle.{Evolves}
use kaftar.Repo.Sound.{IsSound, Within}
use kaftar.Service.Accept.{Service}
use kaftar.Service.Settle.{settle}
use kaftar.System.{
  System, Step, Run, submits, dispatches, takes, completes, here, next, empty, with_claim,
}
use kaftar.System.Submit.{accept-Submitted}
use kaftar.System.Invariant.{Inv, empty-Inv, Run-Inv, Step-Evolves}
use kaftar.System.Tally.{
  claims_of, IsCounted, Tally, any-Grows, known-All, IsKnown-Grows, Tally-Grows,
  length-reserve_dispatch, length-finish, Tally-Submitted,
}

module _ (u : Uuids) (laws : UuidLaws u) (tx : Tx) (now : Time) (lease : ℕ) (token : String) where
  -- A claim names the row that it was taken from.
  print-claim :
      (row : Row) (g : Uuid)
      → row.id ≡ u.print g
      → u.print (outbox_model_to_entity u (take_lease now lease token row)).id ≡ row.id
  unfolding outbox_model_to_entity take_lease
  print-claim row g e = rw (e, laws.parse_print g) refl

  module _ (row : Row) (claims : List Outbox) (visible : is_some row.deleted_at ≡ false) where
    abbrev claimed : Outbox
    claimed = outbox_model_to_entity u (take_lease now lease token row)

    module _ (named : u.print claimed.id ≡ row.id) where
      -- The row itself: one claim and one attempt more.
      IsCounted-row :
          IsCounted u claims row
          → IsCounted u
              (claimed ∷ claims)
              (transition_values (take_lease now lease token row) tx.clock row)
      unfolding transition_values take_lease
      IsCounted-row c = record {
        within = rw (named, str_eq_refl row.id) (omega (arith, c.within));
        printed = c.printed;
      }

      -- Another row: its claims are what they were.
      IsCounted-other :
          (x : Row) → x.id ≢ row.id → IsCounted u claims x → IsCounted u (claimed ∷ claims) x
      IsCounted-other x d c = record {
        within = ground (arith, c.within, named, str_eq_iff x.id (u.print claimed.id));
        printed = c.printed;
      }

      abbrev write : Row → Row
      write x =
          if not (is_some x.deleted_at) && str_eq x.id (take_lease now lease token row).id
          then transition_values (take_lease now lease token row) tx.clock x
          else x

      id-take_lease : (take_lease now lease token row).id ≡ row.id
      unfolding take_lease
      id-take_lease = refl

      untouched : (b : Bool) (x y : Row) → (if b && false then x else y) ≡ y
      untouched true x y = refl
      untouched false x y = refl

      IsCounted-one :
          (x : Row)
          → (x.id ≡ row.id → x ≡ row)
          → IsCounted u claims x
          → IsCounted u (claimed ∷ claims) (write x)
      unfolding take_lease
      IsCounted-one x o c = elim (Bool-cases (str_eq x.id (take_lease now lease token row).id)) [
        | inr miss ↦
            rw (miss, untouched (not (is_some x.deleted_at)))
              (IsCounted-other x (λ e. cc (miss, str_eq_refl row.id, e, id-take_lease)) c)
        | inl hit ↦
            let e =
              o ((str_eq_iff x.id (take_lease now lease token row).id).0 hit ∙ id-take_lease) in
            subst (λ y. IsCounted u (claimed ∷ claims) (write y)) (sym e)
              (rw (visible, id-take_lease, str_eq_refl row.id)
                (IsCounted-row (subst (IsCounted u claims) e c)))
      ]

  pub IsCounted-claim :
      (row : Row) (claims : List Outbox) (s : Store)
      → Only row s
      → is_some row.deleted_at ≡ false
      → u.print (outbox_model_to_entity u (take_lease now lease token row)).id ≡ row.id
      → All (IsCounted u claims) s
      → All
          (IsCounted u (outbox_model_to_entity u (take_lease now lease token row) ∷ claims))
          (write_row tx (take_lease now lease token row) s)
  unfolding write_row
  IsCounted-claim row claims [] o v e c = tt
  IsCounted-claim row claims (x ∷ s) o v e c =
      (IsCounted-one row claims v e x o.0 c.0, IsCounted-claim row claims s o.1 v e c.1)

module _ (svc : Service) (laws : UuidLaws svc.uuids) where
  abbrev TallyAfter : List Outbox → Errors.Result (Option Outbox) × Store → Type 0
  TallyAfter claims (r, t) = Tally svc.uuids t (with_claim r claims)

  Tally-unchanged :
      (s : Store) (claims : List Outbox) (r : Errors.Result (Option Outbox))
      → HandsNone r
      → Tally svc.uuids s claims
      → Tally svc.uuids s (with_claim r claims)
  Tally-unchanged s claims (Errors.ok (some o)) h c = absurd h
  Tally-unchanged s claims (Errors.ok none) h c = c
  Tally-unchanged s claims (Errors.err e) h c = c

  Tally-claim :
      (tx : Tx) (id : String) (channel : Channel) (now : Time) (lease : ℕ) (token : String)
      (s : Store) (claims : List Outbox)
      → Distinct s
      → Grows Evolves s (claim svc.uuids tx id channel now lease token s).1
      → Tally svc.uuids s claims
      → TallyAfter claims (claim svc.uuids tx id channel now lease token s)
  Tally-claim tx id channel now lease token s claims d g c =
      (claim_cases svc.uuids tx id channel now lease token s
          (λ r. Grows Evolves s r.1 → TallyAfter claims r) (λ r h _. Tally-unchanged s claims r h c)
          (λ row n opened over g'.
            Tally-Grows svc claims s _ (unfold write_row in length-update_rows _ _ s) g' c)
          (λ row n opened due fits g'.
            let p = n.among (IsCounted svc.uuids claims) c.counted in
            let e = print-claim svc.uuids laws tx now lease token row p.printed.0 p.printed.1 in
            record {
              counted =
                  IsCounted-claim svc.uuids laws tx now lease token row claims s n.only n.visible e
                    c.counted;
              known = (
                any-Grows
                    (svc.uuids.print
                      (outbox_model_to_entity svc.uuids (take_lease now lease token row)).id)
                    s _ g'
                    (rw e (n.among (λ r. any (λ x. str_eq x.id r.id) s ≡ true) (known-All s))),
                IsKnown-Grows svc s _ g' claims c.known,
              );
            })
          d)
        g

  pub Step-Tally :
      {s t : System}
      → Inv s
      → Tally svc.uuids s.store s.claims
      → Step svc s t
      → Tally svc.uuids t.store t.claims
  Step-Tally {s} i c (submits tx generated now message options) =
      let p = accept-Submitted svc tx generated now message options s.store in
      Tally-Submitted svc tx s.claims s.store _ p
        (Step-Evolves svc i (submits tx generated now message options)) c
  Step-Tally {s} i c (dispatches tx channel now interval limit) =
      Tally-Grows svc s.claims s.store _
        (length-reserve_dispatch svc tx channel now interval limit s.store i.distinct)
        (Step-Evolves svc i (dispatches tx channel now interval limit)) c
  Step-Tally {s} i c (takes tx id channel now lease token fresh) =
      Tally-claim tx id channel now lease token s.store s.claims i.distinct
        (Step-Evolves svc i (takes tx id channel now lease token fresh)) c
  Step-Tally {s} i c (completes tx o attempt now draw m) =
      Tally-Grows svc s.claims s.store _
        (length-finish svc tx (settle attempt now draw o) now s.store)
        (Step-Evolves svc i (completes tx o attempt now draw m)) c

  Run-Tally :
      {s t : System}
      → Inv s
      → Tally svc.uuids s.store s.claims
      → Run svc s t
      → Tally svc.uuids t.store t.claims
  Run-Tally i c here = c
  Run-Tally i c (next r st) = Step-Tally (Run-Inv svc i r) (Run-Tally i c r) st

  Within-mono : (z : ℤ) (m n : ℕ) → m ≤ n → Within z n → Within z m
  Within-mono (pos k) m n h w = omega arith
  Within-mono (negsuc k) m n h w = tt

  both :
      (claims : List Outbox) (s : Store)
      → All IsSound s
      → All (IsCounted svc.uuids claims) s
      → All (λ r. Within r.max_retries (claims_of svc.uuids r.id claims)) s
  both claims [] a b = tt
  both claims (r ∷ s) a b =
      (Within-mono r.max_retries _ _ b.0.within a.0.budget, both claims s a.1 b.1)

  -- In every run from an empty table, Claim hands out at most `max_retries + 1` outboxes for a
  -- message with a limit of `max_retries`, whatever the interleaving, crashes and faults: no
  -- message is given to its provider more often. A negative limit is no limit.
  pub attempts_bounded :
      {t : System}
      → Run svc empty t
      → All (λ r. Within r.max_retries (claims_of svc.uuids r.id t.claims)) t.store
  attempts_bounded {t} r =
      both t.claims t.store (Run-Inv svc empty-Inv r).sound
        (Run-Tally empty-Inv (record { counted = tt; known = tt }) r).counted
