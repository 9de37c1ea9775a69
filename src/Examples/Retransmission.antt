-- ===== src/Examples/Retransmission.antt =====
-- One message accepted twice with one key, a nanosecond apart.
use kaftar.Prelude.{◌+◌, ◌≡◌, ◌≢◌, refl, [], ◌∷◌, String, none, pos, false, str_eq, str_eq_iff, any}
use kaftar.Entity.Channel.{channel_sms}
use kaftar.Entity.Message.{sms}
use kaftar.Repo.Errors
use kaftar.Service.Accept.{Submission, prepare, accept}
use kaftar.Service.Retransmission.{Repeated, accept_again}
use kaftar.Examples.{svc, steady, noon, once, greeting}

abbrev prepared : Submission
prepared = record {
  channel = channel_sms;
  payload = 1 ∷ [];
  max_retries = pos 0;
  send_at = none;
  key = "key";
  fingerprint = "digest";
}

text_ne : (s t : String) → str_eq s t ≡ false → s ≢ t
text_ne s t h e = cc (h, (str_eq_iff s t).1 e)

repeated : Repeated svc steady steady 1 2 noon (sms greeting) once []
unfolding prepare any
repeated = record {
  prepared = prepared;
  valid = refl;
  keyed = λ e. text_ne "key" "" refl e;
  marked = λ e. text_ne "digest" "" refl e;
  free = refl;
  through = record { reads = refl; writes = refl };
  through' = record { reads = refl; writes = refl };
}

accept_again_example :
    accept svc steady
      (Errors.ok 2)
      (noon + 1)
      (sms greeting)
      once
      (accept svc steady (Errors.ok 1) noon (sms greeting) once []).1
    ≡ accept svc steady (Errors.ok 1) noon (sms greeting) once []
accept_again_example =
    accept_again svc steady steady 1 2 noon (noon + 1) (sms greeting) once [] repeated
