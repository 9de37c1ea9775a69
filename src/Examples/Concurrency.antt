-- ===== src/Examples/Concurrency.antt =====
-- Runs of the system: a message is submitted and claimed; its worker dies, the relay finds the lease
-- expired, and another worker claims the message.
use kaftar.Prelude.{
  ℕ, ◌<◌, ◌∷◌, arith, pos, none, some, ◌+◌, ◌≡◌, ◌≢◌, refl, String, [], All, false, str_eq_iff,
  str_eq, any, filter, ◌*◌,
}
use kaftar.Entity.Channel.{channel_sms}
use kaftar.Entity.Message.{sms}
use kaftar.Entity.Time.{second, Time}
use kaftar.Repo.Errors
use kaftar.Repo.Create.{create, insert_row, conflicts}
use kaftar.Repo.Model.{before_create, outbox_entity_to_model, outbox_model_to_entity}
use kaftar.Repo.Delivery.{claim}
use kaftar.Repo.Sound.{Within}
use kaftar.System.{System, Run, here, next, empty, submits, takes, dispatches, IsFresh, with_claim}
use kaftar.System.Tally.{claims_of}
use kaftar.System.Attempts.{attempts_bounded}
use kaftar.Examples.{
  uuids, uuid_laws, strokes, count_strokes, svc, steady, once, twice, noon, greeting,
}
use kaftar.System.Invariant.{Inv, empty-Inv, Run-Inv, Run-Evolves}
use kaftar.System.Fencing.{stale_completion, claim_exclusive, HandsOne}
use kaftar.Repo.Claim.{HandsNone}
use kaftar.Repo.Grows.{Grows}
use kaftar.Repo.Lifecycle.{Evolves}
use kaftar.Entity.Outbox.{Outbox}
use kaftar.Entity.State.{sending}
use kaftar.Repo.Errors.{lease_lost}
use kaftar.Service.Settle.{settle, delivered}
use mathlib.Core.List.{Memᴰ}
use kaftar.Repo.Delivery.{reserve_dispatch, finish}
use kaftar.Service.Accept.{accept, new_outbox}

abbrev lease : ℕ
lease = 60 * second

abbrev late : Time
late = noon + 2 * lease

abbrev interval : ℕ
interval = 10 * second

abbrev submitted : System
submitted = record empty { store = (accept svc steady (Errors.ok 1) noon (sms greeting) once []).1 }

pub text_ne : (s t : String) → str_eq s t ≡ false → s ≢ t
text_ne s t h e = cc (h, (str_eq_iff s t).1 e)

fresh : IsFresh "t" submitted
unfolding accept strokes create before_create outbox_entity_to_model insert_row any conflicts
fresh = record {
  named = λ e. absurd (text_ne "t" "" refl e);
  unclaimed = tt;
  unheld = (λ e. absurd (text_ne "" "t" refl e), tt);
}

abbrev pub claimed : System
claimed = record {
  store = (claim uuids steady "|" channel_sms noon lease "t" submitted.store).1;
  claims = with_claim (claim uuids steady "|" channel_sms noon lease "t" submitted.store).0 [];
}

claimed-Run : Run svc empty claimed
claimed-Run =
    next (next here (submits steady (Errors.ok 1) noon (sms greeting) once))
      (takes steady "|" channel_sms noon lease "t" fresh)

-- The message allows no retry, and one outbox was handed out for it.
claimed_once : All (λ r. claims_of uuids r.id claimed.claims ≡ 1) claimed.store
unfolding accept strokes create before_create outbox_entity_to_model insert_row any conflicts claim
    count_strokes filter outbox_model_to_entity
claimed_once = (refl, tt)

Run-Inv_example : Inv claimed
Run-Inv_example = Run-Inv svc empty-Inv claimed-Run

attempts_bounded_example :
    All (λ r. Within r.max_retries (claims_of svc.uuids r.id claimed.claims)) claimed.store
attempts_bounded_example = attempts_bounded svc uuid_laws claimed-Run

-- One retry is allowed here.
abbrev pub retried : System
retried = record empty { store = (accept svc steady (Errors.ok 1) noon (sms greeting) twice []).1 }

pub retried-IsFresh : IsFresh "t" retried
unfolding accept strokes create before_create outbox_entity_to_model insert_row any conflicts
retried-IsFresh = record {
  named = λ e. absurd (text_ne "t" "" refl e);
  unclaimed = tt;
  unheld = (λ e. absurd (text_ne "" "t" refl e), tt);
}

pub retried-IsFresh_too : IsFresh "u" retried
unfolding accept strokes create before_create outbox_entity_to_model insert_row any conflicts
retried-IsFresh_too = record {
  named = λ e. absurd (text_ne "u" "" refl e);
  unclaimed = tt;
  unheld = (λ e. absurd (text_ne "" "u" refl e), tt);
}

abbrev taken : System
taken = record {
  store = (claim uuids steady "|" channel_sms noon lease "t" retried.store).1;
  claims = with_claim (claim uuids steady "|" channel_sms noon lease "t" retried.store).0 [];
}

abbrev recovered : System
recovered = record taken {
  store = (reserve_dispatch uuids steady channel_sms late interval 32 taken.store).1;
}

recovered-IsFresh : IsFresh "u" recovered
unfolding claim accept create before_create outbox_entity_to_model strokes outbox_model_to_entity
    reserve_dispatch
recovered-IsFresh = record {
  named = λ e. absurd (text_ne "u" "" refl e);
  unclaimed = (λ e. absurd (text_ne "u" "t" refl e), tt);
  unheld = (λ e. absurd (text_ne "" "u" refl e), tt);
}

abbrev retaken : System
retaken = record {
  store = (claim uuids steady "|" channel_sms late lease "u" recovered.store).1;
  claims =
      with_claim (claim uuids steady "|" channel_sms late lease "u" recovered.store).0
        recovered.claims;
}

retried-Run : Run svc empty retaken
retried-Run =
    next
      (next
        (next (next here (submits steady (Errors.ok 1) noon (sms greeting) twice))
          (takes steady "|" channel_sms noon lease "t" retried-IsFresh))
        (dispatches steady channel_sms late interval 32))
      (takes steady "|" channel_sms late lease "u" recovered-IsFresh)

pub retried-Inv : Inv retried
retried-Inv =
    Run-Inv svc empty-Inv (next here (submits steady (Errors.ok 1) noon (sms greeting) twice))

Run-Evolves_example : Grows Evolves retried.store retaken.store
Run-Evolves_example = Run-Evolves svc retried-Inv (
    next
      (next (next here (takes steady "|" channel_sms noon lease "t" retried-IsFresh))
        (dispatches steady channel_sms late interval 32))
      (takes steady "|" channel_sms late lease "u" recovered-IsFresh))

-- The outbox that the first worker holds.
abbrev first_claim : Outbox
first_claim =
    record (new_outbox svc
      (record {
        channel = channel_sms;
        payload = 1 ∷ [];
        max_retries = pos 1;
        send_at = none;
        key = "key";
        fingerprint = "digest";
      })
      noon) {
        id = 1;
        state = sending;
        attempts = 1;
        retry_count = 0;
        lease_token = "t";
        lease_until = some (noon + lease);
        created_at = some noon;
        updated_at = some noon;
      }

first_claimed : Memᴰ first_claim retaken.claims
unfolding claim reserve_dispatch accept create before_create outbox_entity_to_model strokes
    outbox_model_to_entity count_strokes
first_claimed = Memᴰ.tail (Memᴰ.head refl)

superseded : All (λ r. r.id ≡ uuids.print 1 → 1 < r.attempts) retaken.store
unfolding claim reserve_dispatch accept create before_create outbox_entity_to_model strokes
superseded = (λ _. omega arith, tt)

stale_completion_example :
    finish uuids steady (settle delivered late 0 first_claim) late retaken.store
    ≡ (some lease_lost, retaken.store)
stale_completion_example =
    stale_completion svc retaken steady first_claim delivered late 0
      (Run-Inv svc empty-Inv retried-Run) first_claimed superseded refl

hands_one : HandsOne (claim uuids steady "|" channel_sms noon lease "t" retried.store).0
unfolding claim accept create before_create outbox_entity_to_model strokes
hands_one = tt

claim_exclusive_example :
    HandsNone
      (claim uuids steady "|" channel_sms late lease "u"
        (claim uuids steady "|" channel_sms noon lease "t" retried.store).1).0
claim_exclusive_example =
    claim_exclusive uuids "|" channel_sms steady steady noon late lease lease "t" "u" retried.store
      retried-Inv.distinct hands_one
