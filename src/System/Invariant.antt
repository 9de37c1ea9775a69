-- ===== src/System/Invariant.antt =====
-- The invariant of the whole system, over every interleaving.
use kaftar.Prelude.{sym, subst, Option, none, some, List, [], ◌∷◌, All, All-mono}
use mathlib.Core.List.{Memᴰ}
use kaftar.Entity.Outbox.{Outbox}
use kaftar.Repo.Errors
use kaftar.Repo.Table.{Store}
use kaftar.Repo.Delivery.{claim}
use kaftar.Repo.Grows.{Grows, Grows-refl, Grows-trans}
use kaftar.Repo.Keys.{Distinct}
use kaftar.Repo.Lifecycle.{Evolves, Evolves-refl, Evolves-trans}
use kaftar.Repo.Sound.{IsSound}
use kaftar.Service.Accept.{Service}
use kaftar.Service.Settle.{settle}
use kaftar.System.{
  System, Step, Run, submits, dispatches, takes, completes, here, next, empty, with_claim,
}
use kaftar.System.Preserve.{Agrees, Preserves}
use kaftar.System.Dispatch.{
  AnyClaim, Elsewhere, HandsAgreed, reserve_dispatch-Preserves, claim-Preserves,
}
use kaftar.System.Complete.{settle-Settled, finish-Preserves}
use kaftar.System.Submit.{accept-Submitted, Submitted-Preserves}

pub record Inv (sys : System) : Type 0 where
  pub distinct : Distinct sys.store
  pub sound : All IsSound sys.store
  pub agree : All (λ o. All (Agrees o) sys.store) sys.claims

pub All-Memᴰ : {A : Type 0} (P : A → Type 0) {x : A} {xs : List A} → Memᴰ x xs → All P xs → P x
All-Memᴰ P (Memᴰ.head e) a = subst P (sym e) a.0
All-Memᴰ P (Memᴰ.tail m) a = All-Memᴰ P m a.1

pub empty-Inv : Inv empty
empty-Inv = record { distinct = tt; sound = tt; agree = tt }

module _ (svc : Service) where
  -- What one step keeps, whatever claims it concerns.
  keeps :
      (s t : Store) (claims : List Outbox)
      → Preserves AnyClaim s t
      → Inv (record { store = s; claims = claims })
      → Inv (record { store = t; claims = claims })
  keeps s t claims p i = record {
    distinct = p.distinct i.distinct;
    sound = p.sound i.sound;
    agree = All-mono (λ o a. p.agree o tt a) claims i.agree;
  }

  agree-All :
      (K : Outbox → Type 0) (s t : Store) (claims : List Outbox)
      → Preserves K s t
      → All K claims
      → All (λ o. All (Agrees o) s) claims
      → All (λ o. All (Agrees o) t) claims
  agree-All K s t [] p k a = tt
  agree-All K s t (o ∷ claims) p k a = (p.agree o k.0 a.0, agree-All K s t claims p k.1 a.1)

  agree_handed :
      (r : Errors.Result (Option Outbox)) (t : Store) (claims : List Outbox)
      → HandsAgreed r t
      → All (λ o. All (Agrees o) t) claims
      → All (λ o. All (Agrees o) t) (with_claim r claims)
  agree_handed (Errors.ok (some o)) t claims h a = (h, a)
  agree_handed (Errors.ok none) t claims h a = a
  agree_handed (Errors.err e) t claims h a = a

  step_facts : {s t : System} → Inv s → Step svc s t → Grows Evolves s.store t.store × Inv t
  step_facts {s} i (submits tx generated now message options) =
      let p =
        Submitted-Preserves svc tx s.store _
          (accept-Submitted svc tx generated now message options s.store) in
      (p.evolves, keeps s.store _ s.claims p i)
  step_facts {s} i (dispatches tx channel now interval limit) =
      let p =
        reserve_dispatch-Preserves svc.uuids tx channel now interval limit s.store i.distinct in
      (p.evolves, keeps s.store _ s.claims p i)
  step_facts {s} i (takes tx id channel now lease token fresh) =
      let (p, handed) =
        claim-Preserves svc.uuids tx id channel now lease token s.store fresh.unheld i.distinct in
      (
        p.evolves,
        record {
          distinct = p.distinct i.distinct;
          sound = p.sound i.sound;
          agree =
              agree_handed (claim svc.uuids tx id channel now lease token s.store).0 _ s.claims
                handed (agree-All (Elsewhere token) s.store _ s.claims p fresh.unclaimed i.agree);
        },
      )
  step_facts {s} i (completes tx o attempt now draw m) =
      let p =
        finish-Preserves svc.uuids tx now o (settle attempt now draw o)
          (settle-Settled attempt now draw o) s.store
          (All-Memᴰ (λ c. All (Agrees c) s.store) m i.agree) in
      (p.evolves, keeps s.store _ s.claims p i)

  pub Step-Evolves : {s t : System} → Inv s → Step svc s t → Grows Evolves s.store t.store
  Step-Evolves i st = (step_facts i st).0

  pub Step-Inv : {s t : System} → Inv s → Step svc s t → Inv t
  Step-Inv i st = (step_facts i st).1

  -- From a system that satisfies the invariant, every run reaches one that does: row IDs stay
  -- distinct, every row stays sound (its lease fields and its counters fit its state), and
  -- every outbox ever handed out agrees with the row it came from.
  pub Run-Inv : {s t : System} → Inv s → Run svc s t → Inv t
  Run-Inv i here = i
  Run-Inv i (next r st) = Step-Inv (Run-Inv i r) st

  -- In every run from a system that satisfies the invariant, every row that was there stays
  -- and evolves: its ID, key, channel, payload, fingerprint, limits and creation time do not
  -- change, its attempts never fall, its state moves along the edges of the lifecycle, and a
  -- sent or dead row never changes.
  pub Run-Evolves : {s t : System} → Inv s → Run svc s t → Grows Evolves s.store t.store
  Run-Evolves i here = Grows-refl Evolves Evolves-refl _
  Run-Evolves i (next r st) =
      Grows-trans Evolves Evolves-trans _ _ _ (Run-Evolves i r) (Step-Evolves (Run-Inv i r) st)
