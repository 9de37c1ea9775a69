-- ===== src/Examples.antt =====
-- A small world for the examples: a service whose libraries are concrete functions, a database
-- that does not fail, and one message.
mod Concurrency
mod Repository
mod Schedule
mod Retransmission
mod Delivery
mod Probes
mod Providers
mod Senders
mod Telemetry
mod Relaying
mod Progress
mod Setup
mod Endpoints
use Prim.Native.String
use Prim.Native.Char.{Char}
use kaftar.Prelude.{
  ◌*◌, ℕ, zero, suc, ◌≡◌, refl, ap, String, Option, none, some, List, [], ◌∷◌, Bool, true, false, ℤ,
  pos, negsuc,
}
use kaftar.Entity.Time.{Time, day}
use kaftar.Entity.Channel.{channel_http, channel_sms}
use kaftar.Entity.Message.{
  Go, Url, Message, sms, email, mattermost, bale, http, SmsMessage, EmailMessage, MattermostMessage,
  BaleMessage, HttpMessage, Bytes,
}
use kaftar.Repo.Model.{Uuids, UuidLaws}
use kaftar.Repo.Table.{Tx}
use kaftar.Service.Accept.{Service, SendOptions}

-- A UUID printed as so many strokes.
unfoldable pub strokes : ℕ → String
strokes zero = String.[]
strokes (suc n) = String.◌∷◌ "|" (strokes n)

unfoldable pub count_strokes : String → ℕ
count_strokes String.[] = 0
count_strokes (String.◌∷◌ c s) = suc (count_strokes s)

count_strokes-strokes : (n : ℕ) → count_strokes (strokes n) ≡ n
unfolding count_strokes strokes
count_strokes-strokes zero = refl
count_strokes-strokes (suc n) = ap suc (count_strokes-strokes n)

abbrev pub uuids : Uuids
uuids = record { parse = λ s. some (count_strokes s); print = strokes }

pub uuid_laws : UuidLaws uuids
uuid_laws = record { parse_print = λ n. ap some (count_strokes-strokes n) }

abbrev pub greeting : SmsMessage
greeting = record { to = "100" ∷ []; text = "hello" }

abbrev pub request : HttpMessage
request = record { url = "http://a"; method = ""; headers = []; body = "x" }

-- Every SMS text is the one greeting, every HTTP body the one request.
abbrev pub go : Go
go = record {
  trim_space = λ s. s;
  to_upper = λ s. s;
  is_letter = λ c. true;
  is_digit = λ c. false;
  parse_url = λ s. some (record { scheme = "http"; host = "a"; text = s });
  request_is_valid = λ m u. true;
  encode = λ m. some (1 ∷ []);
  decode_sms = λ b. some greeting;
  decode_email = λ b. none;
  decode_mattermost = λ b. none;
  decode_bale = λ b. some (record { chat_id = "1"; text = "t"; attachments = [] });
  decode_http = λ b. some request;
}

abbrev pub svc : Service
svc = record {
  go = go;
  uuids = uuids;
  canonical = λ p m t. some p;
  digest = λ b. "digest";
  channels = channel_sms ∷ channel_http ∷ [];
  retry_max_age = pos 0;
  stopping = false;
}

abbrev pub noon : Time
noon = 700000 * day

abbrev pub steady : Tx
steady = record {
  clock = noon;
  postgres = true;
  locked = λ r. false;
  read_fault = none;
  write_fault = λ id. none;
  commit_fault = none;
  committed = λ id. false;
}

abbrev pub once : SendOptions
once = record { max_retries = pos 0; send_at = none; idempotency_key = "key" }

abbrev pub twice : SendOptions
twice = record { max_retries = pos 1; send_at = none; idempotency_key = "key" }
