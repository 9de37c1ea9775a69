-- ===== src/Provider/Http.antt =====
-- server/internal/service/http/sender.go. `Wire` is what Go's HTTP client answers.
use kaftar.Prelude.{
  ℕ, zero, suc, String, Option, none, some, List, [], ◌∷◌, Bool, false, not, ◌&&◌, if◌then◌else◌,
  any, str_eq, ltb, ℤ, pos, negsuc, length, ◌^◌, ◌*◌,
}
use Prim.Native.String.{◌++◌ as append}
use kaftar.Entity.Time.{second}
use kaftar.Entity.Message.{Bytes, Go, Message, HttpMessage, http, validate_http, effective_method}
use kaftar.Provider.Client.{
  ProviderError, failure, unclassified, body_limit, wrapped, is_body_limit, classify, Result, ok,
  err, ◌>>=◌, ◌>>◌, guard, error_of,
}
use kaftar.Provider.Destination.{Net, Policy, Destination, validate}

-- Config, for what Send reads. A duration that is not positive is 0.
pub record Config : Type 0 where
  pub timeout : ℕ
  pub request_body_max_bytes : ℤ
  pub response_body_max_bytes : ℤ

abbrev pub timeout_of : ℕ → ℕ
timeout_of zero = 30 * second
timeout_of (suc t) = suc t

-- OrDefault: none is nil.
unfoldable pub or_default : Option Config → Config
or_default none = record {
  timeout = 30 * second;
  request_body_max_bytes = pos (2 ^ 20);
  response_body_max_bytes = pos (2 ^ 20);
}
or_default (some c) = record c { timeout = timeout_of c.timeout }

-- http.Response: reading the body gives bytes, and possibly an error after them.
pub record Answer : Type 0 where
  pub status_code : ℕ
  pub bytes : Bytes
  pub read_error : Option ProviderError

-- What stands between the sender and the network: http.NewRequestWithContext, whose request is read
-- for its URL and has no header yet, client.Do, the canonical form of a header's name
-- (http.CanonicalHeaderKey), and how a number is printed.
pub record Wire : Type 0 where
  pub new_request : String → String → Result Destination
  pub perform : List (String × String) → Result Answer
  pub canonical : String → String
  pub print : ℕ → String
  pub byte_length : String → ℕ

abbrev pub or_read_error : Option ProviderError → Bytes → Result Bytes
or_read_error none body = ok body
or_read_error (some e) body = err e

-- readBody. The reader stops after maxBytes + 1 bytes, so an error behind them is not met.
unfoldable pub read_body : ℤ → Answer → Result Bytes
read_body (negsuc n) answer = or_read_error answer.read_error answer.bytes
read_body (pos max_bytes) answer =
    if ltb max_bytes (length answer.bytes)
    then err (wrapped "response body size exceeds configured limit" body_limit)
    else or_read_error answer.read_error answer.bytes

abbrev pub hop_by_hop : List String
hop_by_hop =
    "connection" ∷ "keep-alive" ∷ "proxy-authenticate" ∷ "proxy-authorization" ∷ "proxy-connection"
    ∷ "te" ∷ "trailer" ∷ "transfer-encoding" ∷ "upgrade" ∷ "host" ∷ []

abbrev pub accepted_status : ℕ → Bool
accepted_status code = not (ltb code 200) && ltb code 300

abbrev pub too_large : ℤ → ℕ → Bool
too_large (negsuc n) size = false
too_large (pos limit) size = ltb limit size

abbrev pub wrap_error {ℓ} : {A : Type ℓ} → String → Result A → Result A
wrap_error text (ok a) = ok a
wrap_error text (err e) = err (wrapped text e)

abbrev pub of_option : Option ProviderError → Result (Unit {0})
of_option none = ok tt
of_option (some e) = err e

-- http.Header, with one value for each key. Set replaces the value of a key that is there.
abbrev pub Header : Type 0
Header = List (String × String)

unfoldable pub set_header : String → String → Header → Header
set_header key value [] = (key, value) ∷ []
set_header key value ((k, v) ∷ rest) =
    let put = set_header key value rest in
    if str_eq k key then (key, value) ∷ rest else (k, v) ∷ put

module _ (net : Net) (canonical : String → String) where
  -- The loop over the message's headers, in the order in which the map gives them. req.Header.Set
  -- writes under the canonical form of the name.
  unfoldable pub set_headers : List (String × String) → Header → Result Header
  unfolding any set_header
  set_headers [] header = ok header
  set_headers ((name, value) ∷ headers) header = do
    guard (not (any (λ h. str_eq h (net.to_lower name)) hop_by_hop))
        (failure "http: hop-by-hop or authority header is not permitted")
    set_headers headers (set_header (canonical name) value header)

abbrev pub of_text : Option String → Result (Unit {0})
of_text none = ok tt
of_text (some text) = err (unclassified text)

-- ConcreteHttpMessage: another kind of message has the wrong type.
abbrev pub concrete_http_message : Message → Result HttpMessage
concrete_http_message (http m) = ok m
concrete_http_message _ = err (unclassified "unexpected message type")

-- What the deferred function makes of the error.
abbrev pub reported : Option ProviderError → Option ProviderError
unfolding classify is_body_limit
reported none = none
reported (some e) = if is_body_limit e then some e else some (classify "http" e)

module _ (go : Go) (net : Net) (wire : Wire) (config : Config) (policy : Policy) where
  -- (*sender).send
  unfoldable pub send_request : HttpMessage → Result (Unit {0})
  unfolding effective_method validate set_headers read_body
  send_request m = do
    guard (not (too_large config.request_body_max_bytes (wire.byte_length m.body)))
        (wrapped "http: request body size exceeds configured limit" body_limit)
    url ← wrap_error "http: create request" (wire.new_request (effective_method go m) m.url)
    of_option (validate net policy url)
    headers ← set_headers net wire.canonical m.headers []
    answer ← wrap_error "http: execute request" (wire.perform headers)
    body ← wrap_error "http: read response" (read_body config.response_body_max_bytes answer)
    guard (accepted_status answer.status_code)
        (failure (append "http: HTTP " (wire.print answer.status_code)))
    ok tt

  -- Send before the deferred function; `context` is ctx.Err().
  unfoldable pub send_checked : Option ProviderError → Message → Result (Unit {0})
  unfolding validate_http send_request
  send_checked context message = do
    of_option context
    m ← concrete_http_message message
    of_text (validate_http go m)
    send_request m

  -- (*sender).Send
  unfoldable pub send : Option ProviderError → Message → Option ProviderError
  unfolding classify is_body_limit send_checked
  send context message = reported (error_of (send_checked context message))
