-- ===== src/Examples/Repository.antt =====
-- Two submissions with one key, as Create sees them.
use kaftar.Prelude.{any, ◌≡◌, ◌≢◌, refl, [], ◌∷◌, none, pos, String, false, str_eq, str_eq_iff}
use kaftar.Entity.Channel.{channel_sms}
use kaftar.Entity.Outbox.{Outbox}
use kaftar.Repo.Errors.{ok, err, idempotency_conflict}
use kaftar.Repo.Create.{create}
use kaftar.Repo.Idempotency.{Repeats, create_again, create_conflict}
use kaftar.Service.Accept.{new_outbox}
use kaftar.Examples.{uuids, svc, steady, noon}

abbrev keyed : String → Outbox
keyed fingerprint =
    new_outbox svc
      (record {
        channel = channel_sms;
        payload = 1 ∷ [];
        max_retries = pos 1;
        send_at = none;
        key = "key";
        fingerprint = fingerprint;
      })
      noon

text_ne : (s t : String) → str_eq s t ≡ false → s ≢ t
text_ne s t h e = cc (h, (str_eq_iff s t).1 e)

repeats : (f : String) → Repeats uuids steady steady 1 2 (keyed "digest") (keyed f) []
unfolding new_outbox any
repeats f = record {
  unnamed = refl;
  unnamed' = refl;
  keyed = λ e. text_ne "key" "" refl e;
  same_key = refl;
  same_channel = refl;
  free = refl;
  through = record { reads = refl; writes = refl };
  through' = record { reads = refl; writes = refl };
}

marked : (keyed "digest").fingerprint ≢ ""
unfolding new_outbox
marked = λ e. text_ne "digest" "" refl e

same : (keyed "digest").fingerprint ≡ (keyed "digest").fingerprint
same = refl

changed : (keyed "other").fingerprint ≢ (keyed "digest").fingerprint
unfolding new_outbox
changed = λ e. text_ne "other" "digest" refl e

create_again_example :
    create uuids steady (ok 2) (keyed "digest") (create uuids steady (ok 1) (keyed "digest") []).1
    ≡ create uuids steady (ok 1) (keyed "digest") []
create_again_example =
    create_again uuids steady steady 1 2 (keyed "digest") (keyed "digest") [] (repeats "digest")
      marked same

create_conflict_example :
    create uuids steady (ok 2) (keyed "other") (create uuids steady (ok 1) (keyed "digest") []).1
    ≡ (err idempotency_conflict, (create uuids steady (ok 1) (keyed "digest") []).1)
create_conflict_example =
    create_conflict uuids steady steady 1 2 (keyed "digest") (keyed "other") [] (repeats "other")
      changed
