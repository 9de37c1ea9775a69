-- ===== src/Provider/Accepted.antt =====
-- What a provider call without an error means.
use kaftar.Prelude.{
  String, ◌≡◌, refl, Option, none, some, List, [], ◌∷◌, true, false, not, All, arith, str_eq, ltb_ℤ,
  eqb_ℤ, ℤ, pos, negsuc, ltb, length, ◌==◌, ◌||◌, ==_iff, Bool-cases, inl, inr,
}
use kaftar.Entity.Message.{
  Bytes, Go, Message, HttpMessage, SmsMessage, sms, email, mattermost, bale, http, is_empty,
  effective_method, validate_http,
}
use kaftar.Provider.Client.{
  ProviderError, failure, Result, ok, err, ◌>>=◌, guard, error_of, safe_error, classify,
  is_body_limit, Response,
}
use kaftar.Provider.Destination.{Net, Policy, Destination, validate}
use kaftar.Provider.Http
use kaftar.Provider.Client
use Prim.Native.String.{◌++◌ as append}
use kaftar.Provider.Http.{
  Wire, Config, Answer, Header, set_headers, read_body, accepted_status, too_large, hop_by_hop,
  of_option, of_text, wrap_error, concrete_http_message, reported,
}
use kaftar.Provider.Headers.{IsHeaderOf, set_headers-IsHeaderOf}
use kaftar.Provider.Inversion.{
  bind-ok, bind_unit, guard-ok, no_error, unsafe_none, option_none, unwrap, text_none,
  response-IsRead,
}
use kaftar.Provider.Sms
use kaftar.Provider.Sms.{SmsSender, SmsResult, Entry, check_entries, check_result, is_accepted}

-- The provider answered the request for the message's recipients with status 200, and its answer
-- reads as an acceptance of every one of them.
pub record IsSmsAccepted (sender : SmsSender) (message : Message) : Type 0 where
  pub text : SmsMessage
  pub is_sms : message ≡ sms text
  pub response : Response
  pub performed : sender.perform text.to (append text.text "\n") ≡ ok response
  pub status : response.status_code ≡ 200
  pub body : Bytes
  pub read : response.body ≡ ok body
  pub result : SmsResult
  pub decoded : sender.decode body ≡ some result
  pub returned : eqb_ℤ result.return_status (pos 200) ≡ true
  pub entries_match : length result.entries ≡ length text.to
  pub accepted :
      All
        (λ (e : Entry). (ltb_ℤ (pos 0) e.id ≡ true) × (is_accepted e.status ≡ true))
        result.entries

was_decoded : (o : Option SmsResult) (r : SmsResult) → Sms.decoded o ≡ ok r → o ≡ some r
was_decoded none r h = absurd (ground arith)
was_decoded (some a) r h = grind (arith, h)

module _ (sender : SmsSender) where
  entries_accepted :
      (entries : List Entry)
      → check_entries sender entries ≡ ok tt
      → All (λ (e : Entry). (ltb_ℤ (pos 0) e.id ≡ true) × (is_accepted e.status ≡ true)) entries
  unfolding check_entries
  entries_accepted [] h = tt
  entries_accepted (e ∷ entries) h =
      let (i, h') = guard-ok (ltb_ℤ (pos 0) e.id) _ _ h in
      let (s, h'') = guard-ok (is_accepted e.status) _ _ h' in
      ((i, s), entries_accepted entries h'')

  sendable-ok : (m : Message) (t : SmsMessage) → Sms.sendable m ≡ ok t → m ≡ sms t
  unfolding Sms.sendable
  sendable-ok (sms m) t h = elim (Bool-cases (is_empty m.to || str_eq m.text "")) [
    | inl e ↦ absurd (grind (arith, e, h))
    | inr e ↦ grind (arith, e, h)
  ]
  sendable-ok (email m) t h = absurd (ground arith)
  sendable-ok (mattermost m) t h = absurd (ground arith)
  sendable-ok (bale m) t h = absurd (ground arith)
  sendable-ok (http m) t h = absurd (ground arith)

  -- If the SMS provider's Send reports no error, the message is an SMS, and the provider answered
  -- the request for its recipients and its text with HTTP status 200 and a body that reads as
  -- status 200 with as many entries as the SMS has recipients, each with a positive message ID and
  -- an accepted status.
  pub sms_send_lem :
      (context : Option ProviderError) (message : Message)
      → Sms.send sender context message ≡ none
      → IsSmsAccepted sender message
  unfolding Sms.send Sms.send_checked safe_error check_result
  sms_send_lem context message h =
      let done = no_error (Sms.send_checked sender context message) (unsafe_none "sms" _ h) in
      let (c, h1) = bind_unit (Sms.of_context context) _ done in
      let (t, s, h2) = bind-ok (Sms.sendable message) _ h1 in
      let (k, h3) = guard-ok (not (str_eq sender.api_key "")) _ _ h2 in
      let (b, h4) = bind_unit sender.build _ h3 in
      let (body, p, h5) =
        bind-ok (Client.response sender.print "sms" 200 (sender.perform t.to (append t.text "\n")))
          _ h4 in
      let (r, d, h6) = bind-ok (Sms.decoded (sender.decode body)) _ h5 in
      let (status, h7) = guard-ok (eqb_ℤ r.return_status (pos 200)) _ _ h6 in
      let (count, h8) = guard-ok (length r.entries == length t.to) _ _ h7 in
      let answer = response-IsRead sender.print "sms" _ body p in
      record {
        text = t;
        is_sms = sendable-ok message t s;
        response = answer.response;
        performed = answer.answered;
        status = answer.status;
        body = body;
        read = answer.read;
        result = r;
        decoded = was_decoded (sender.decode body) r d;
        returned = status;
        entries_match = (==_iff (length r.entries) (length t.to)).0 count;
        accepted = entries_accepted r.entries h8;
      }

http_only :
    (message : Message) (m : HttpMessage) → concrete_http_message message ≡ ok m → message ≡ http m
http_only (http m) t h = grind (arith, h)
http_only (email m) t h = absurd (ground arith)
http_only (mattermost m) t h = absurd (ground arith)
http_only (bale m) t h = absurd (ground arith)
http_only (sms m) t h = absurd (ground arith)

unreported : (e : Option ProviderError) → reported e ≡ none → e ≡ none
unfolding classify is_body_limit
unreported none h = refl
unreported (some e) h = elim (Bool-cases (is_body_limit e)) [
  | inl b ↦ absurd (grind (arith, b, h))
  | inr b ↦ absurd (grind (arith, b, h))
]

read_body-fits :
    (limit : ℤ) (a : Answer) (body : Bytes)
    → read_body limit a ≡ ok body
    → too_large limit (length a.bytes) ≡ false
unfolding read_body
read_body-fits (negsuc n) a body h = refl
read_body-fits (pos n) a body h = elim (Bool-cases (ltb n (length a.bytes))) [
  | inl b ↦ absurd (grind (arith, b, h))
  | inr b ↦ b
]

-- The destination was allowed and the other side answered with success, within the limits.
pub record IsHttpAccepted (net : Net) (wire : Wire) (config : Config) (policy : Policy)
    (m : HttpMessage) : Type 0 where
  pub method : String
  pub url : Destination
  pub answer : Answer
  pub fits : too_large config.request_body_max_bytes (wire.byte_length m.body) ≡ false
  pub requested : wire.new_request method m.url ≡ ok url
  pub permitted : validate net policy url ≡ none
  pub sent : Header
  pub headers : IsHeaderOf net wire.canonical m.headers sent
  pub performed : wire.perform sent ≡ ok answer
  pub success : accepted_status answer.status_code ≡ true
  pub read : too_large config.response_body_max_bytes (length answer.bytes) ≡ false

module _ (go : Go) (net : Net) (wire : Wire) (config : Config) (policy : Policy) where
  -- If the HTTP provider's Send reports no error, the message is a valid HTTP message whose
  -- body is within the limit, its URL was permitted by the policy, none of its headers is one of a
  -- connection or an authority, the canonical form of each of their names was sent, once, with
  -- the value of one of them that has that form, no other header was sent, and the answer had a
  -- status from 200 to 299 and a body within the limit.
  pub http_send_lem :
      (context : Option ProviderError) (message : Message)
      → Http.send go net wire config policy context message ≡ none
      → (m : HttpMessage) × (message ≡ http m)
        × (validate_http go m ≡ none)
        × IsHttpAccepted net wire config policy m
  unfolding Http.send Http.send_checked Http.send_request
  http_send_lem context message h =
      let done =
        no_error (Http.send_checked go net wire config policy context message) (unreported _ h) in
      let (c, h1) = option_none context _ done in
      let (m, s, h2) = bind-ok (concrete_http_message message) _ h1 in
      let (v, h3) = text_none (validate_http go m) _ h2 in
      let (f, h4) =
        guard-ok (not (too_large config.request_body_max_bytes (wire.byte_length m.body))) _ _ h3 in
      let (url, u, h5) =
        bind-ok (wrap_error "http: create request" (wire.new_request (effective_method go m) m.url))
          _ h4 in
      let (p, h6) = option_none (validate net policy url) _ h5 in
      let (set, hs, h7) = bind-ok (set_headers net wire.canonical m.headers []) _ h6 in
      let (answer, a, h8) = bind-ok (wrap_error "http: execute request" (wire.perform set)) _ h7 in
      let (body, b, h9) =
        bind-ok (wrap_error "http: read response" (read_body config.response_body_max_bytes answer))
          _ h8 in
      let (ok_status, h10) = guard-ok (accepted_status answer.status_code) _ _ h9 in
      (
        m,
        http_only message m s,
        v,
        record {
          method = effective_method go m;
          url = url;
          answer = answer;
          fits = ground arith;
          requested = unwrap _ _ u;
          permitted = p;
          sent = set;
          headers = set_headers-IsHeaderOf net wire.canonical m.headers set hs;
          performed = unwrap _ _ a;
          success = ok_status;
          read = read_body-fits config.response_body_max_bytes answer body (unwrap _ _ b);
        },
      )
