-- ===== src/Examples/Providers.antt =====
-- A sender with one allowed destination, and an SMS provider that accepts.
use kaftar.Prelude.{ℕ, ◌≡◌, refl, none, some, [], ◌∷◌, true, false, pos}
use kaftar.Entity.Message.{http, sms, HttpMessage, validate_http}
use kaftar.Provider.Client.{ok, ProviderError, unclassified, wrapped, safe_error}
use kaftar.Provider.Address.{v4, prefix4, quad, permits}
use kaftar.Provider.Destination.{Net, Policy, Network, Destination, dial_context}
use kaftar.Provider.Dial.{OnlyDials, IsGuarded, IsPublic, dial_context-OnlyDials, permits-IsPublic}
use kaftar.Provider.Redaction.{redact, safe_error-redact}
use kaftar.Provider.Http
use kaftar.Provider.Http.{Config, Wire}
use kaftar.Provider.Sms
use kaftar.Provider.Sms.{SmsSender}
use kaftar.Provider.Accepted.{IsHttpAccepted, IsSmsAccepted, http_send_lem, sms_send_lem}
use kaftar.Examples.{go, request, greeting}

-- Every target is the host h at port 80, every name resolves to 1.1.1.1 and then 8.8.8.8.
abbrev pub net : Net
net = record {
  split_host_port = λ t. some ("h", "80");
  join_host_port = λ h p. h;
  atoi = λ s. some (pos 80);
  itoa = λ n. "80";
  to_lower = λ s. s;
  trim_dot = λ s. s;
  contains_any = λ s t. false;
  parse_addr = λ s. none;
  parse_prefix = λ s. none;
  masked = λ p. p;
}

abbrev policy : Policy
policy = record { allowed = "h" ∷ []; private = [] }

abbrev one : ℕ
one = quad 1 1 1 1

abbrev eight : ℕ
eight = quad 8 8 8 8

-- The first address refuses the connection.
abbrev network : Network
network = record {
  resolve = λ host. ok (v4 one ∷ v4 eight ∷ []);
  dial = λ a port. elim (permits (prefix4 one 8 ∷ []) a) [
    | true ↦ some (unclassified "refused")
    | false ↦ none
  ];
  context_error = λ a. none;
}

dial_context_example :
    OnlyDials (IsGuarded net policy "h:80") (dial_context net network policy "h:80")
dial_context_example = dial_context-OnlyDials net network policy "h:80"

one_permitted : permits [] (v4 one) ≡ true
unfolding permits
one_permitted = refl

permits-IsPublic_example : IsPublic one
permits-IsPublic_example = permits-IsPublic one one_permitted

abbrev refused : ProviderError
refused = wrapped "Post \"http://h\"" (unclassified "connection refused by 10.0.0.7")

safe_error-redact_example :
    safe_error "http" (some (redact refused)) ≡ safe_error "http" (some refused)
safe_error-redact_example = safe_error-redact "http" refused

abbrev config : Config
config = record { timeout = 1; request_body_max_bytes = pos 10; response_body_max_bytes = pos 10 }

abbrev target : Destination
target = record { scheme = "http"; user = false; fragment = ""; hostname = "h"; port = "80" }

abbrev wire : Wire
wire = record {
  new_request = λ method url. ok target;
  perform = λ headers. ok (record { status_code = 204; bytes = []; read_error = none });
  canonical = λ name. name;
  print = λ n. "204";
  byte_length = λ s. 1;
}

-- Two of the names have one canonical form.
abbrev asking : HttpMessage
asking = record request { headers = ("A", "1") ∷ ("b", "2") ∷ ("A", "3") ∷ [] }

sent : Http.send go net wire config policy none (http asking) ≡ none
unfolding Http.send
sent = refl

http_send_example :
    (m : HttpMessage) × (http asking ≡ http m)
    × (validate_http go m ≡ none)
    × IsHttpAccepted net wire config policy m
http_send_example = http_send_lem go net wire config policy none (http asking) sent

abbrev kavenegar : SmsSender
kavenegar = record {
  phone = "1";
  api_key = "k";
  build = ok tt;
  perform = λ to text. ok (record { status_code = 200; body = ok [] });
  decode = λ b.
      some
        (record { return_status = pos 200; entries = record { id = pos 7; status = pos 1 } ∷ [] });
  print = λ n. "200";
  print_int = λ n. "1";
}

texted : Sms.send kavenegar none (sms greeting) ≡ none
unfolding Sms.send
texted = refl

sms_send_example : IsSmsAccepted kavenegar (sms greeting)
sms_send_example = sms_send_lem kavenegar none (sms greeting) texted
