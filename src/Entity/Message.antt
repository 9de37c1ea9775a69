-- ===== src/Entity/Message.antt =====
-- The messages of server/internal/entity (message.go and the *_message.go files), and what
-- `Validate` asks of them. Go's string, URL and JSON packages are the parameter `Go`.
use kaftar.Prelude.{
  ℕ, String, Option, none, some, List, [], ◌∷◌, Bool, true, false, ◌&&◌, ◌||◌, not, str_eq, ℤ,
  if◌then◌else◌, filter, any, ◌==◌,
}
use Prim.Native.Char.{code}
use kaftar.Entity.Channel.{
  Channel, channel_email, channel_sms, channel_mattermost, channel_bale, channel_http,
}

abbrev pub Bytes : Type 0
Bytes = List ℕ

pub record Attachment : Type 0 where
  pub name : String
  pub content_type : String
  pub size : ℤ
  pub content : Bytes

pub record SmsMessage : Type 0 where
  pub to : List String
  pub text : String

pub record EmailMessage : Type 0 where
  pub to : List String
  pub cc : List String
  pub bcc : List String
  pub subject : String
  pub html_body : String
  pub text_body : String
  pub attachments : List Attachment

pub record MattermostMessage : Type 0 where
  pub channel_id : String
  pub text : String
  pub title : String
  pub attachments : List Attachment

pub record BaleMessage : Type 0 where
  pub chat_id : String
  pub text : String
  pub attachments : List Attachment

pub record HttpMessage : Type 0 where
  pub url : String
  pub method : String
  pub headers : List (String × String)
  pub body : String

pub data Message : Type 0 where
  sms : SmsMessage → Message
  email : EmailMessage → Message
  mattermost : MattermostMessage → Message
  bale : BaleMessage → Message
  http : HttpMessage → Message

-- The method Channel of each message type.
unfoldable pub channel_of : Message → Channel
channel_of (sms m) = channel_sms
channel_of (email m) = channel_email
channel_of (mattermost m) = channel_mattermost
channel_of (bale m) = channel_bale
channel_of (http m) = channel_http

abbrev pub wrap : {A : Type 0} → (A → Message) → Option A → Option Message
wrap f none = none
wrap f (some a) = some (f a)

-- What url.Parse finds.
pub record Url : Type 0 where
  pub scheme : String
  pub host : String
  pub text : String

-- The functions of Go's packages strings, unicode, net/url, net/http and encoding/json. A decoder
-- answers none where json.Unmarshal returns an error.
pub record Go : Type 0 where
  pub trim_space : String → String
  pub to_upper : String → String
  pub is_letter : ℕ → Bool
  pub is_digit : ℕ → Bool
  pub parse_url : String → Option Url
  pub request_is_valid : String → String → Bool
  pub encode : Message → Option Bytes
  pub decode_sms : Bytes → Option SmsMessage
  pub decode_email : Bytes → Option EmailMessage
  pub decode_mattermost : Bytes → Option MattermostMessage
  pub decode_bale : Bytes → Option BaleMessage
  pub decode_http : Bytes → Option HttpMessage

-- slices.Compact: of equal neighbours only the first stays.
unfoldable pub compact_from : String → List String → List String
compact_from last [] = []
compact_from last (s ∷ ss) =
    let rest = compact_from s ss in
    let same = compact_from last ss in if str_eq last s then same else s ∷ rest

unfoldable pub compact : List String → List String
unfolding compact_from
compact [] = []
compact (s ∷ ss) = s ∷ compact_from s ss

abbrev pub is_empty {ℓ} : {A : Type ℓ} → List A → Bool
is_empty [] = true
is_empty (x ∷ xs) = false

-- (*SMSMessage).Validate changes the recipients of the message it is called on.
unfoldable pub validate_sms : SmsMessage → SmsMessage × Option String
unfolding filter compact
validate_sms m =
    let cleaned = record m { to = compact (filter (λ s. not (str_eq s "")) m.to) } in
    if is_empty cleaned.to
    then (cleaned, some "sms: missing recipient")
    else if str_eq cleaned.text ""
    then (cleaned, some "sms: missing text body")
    else (cleaned, none)

unfoldable pub validate_email : EmailMessage → Option String
validate_email m =
    if is_empty m.to
    then some "email: missing recipient"
    else if str_eq m.subject ""
    then some "email: missing subject"
    else none

unfoldable pub validate_mattermost : MattermostMessage → Option String
validate_mattermost m =
    if str_eq m.text "" && str_eq m.title ""
    then some "mattermost: missing text or title"
    else if str_eq m.channel_id ""
    then some "mattermost: missing channel ID"
    else none

-- The marks that a header name may hold beside letters and digits.
abbrev pub header_marks : List ℕ
header_marks =
    b'!' ∷ b'#' ∷ b'$' ∷ b'%' ∷ b'&' ∷ 39 ∷ b'*' ∷ b'+' ∷ b'-' ∷ b'.' ∷ b'^' ∷ b'_' ∷ b'`' ∷ b'|'
    ∷ b'~' ∷ []

module _ (go : Go) where
  -- (*HTTPMessage).EffectiveMethod
  unfoldable pub effective_method : HttpMessage → String
  effective_method m =
      if str_eq (go.trim_space m.method) "" then "POST" else go.to_upper (go.trim_space m.method)

  abbrev pub valid_header_char : ℕ → Bool
  valid_header_char c = go.is_letter c || go.is_digit c || any (λ mark. mark == c) header_marks

  unfoldable pub valid_header_chars : String → Bool
  unfolding any
  valid_header_chars String.[] = true
  valid_header_chars (String.◌∷◌ c s) = valid_header_char (code c) && valid_header_chars s

  unfoldable pub valid_header_name : String → Bool
  unfolding valid_header_chars
  valid_header_name name = not (str_eq name "") && valid_header_chars name

-- strings.ContainsAny(value, "\r\n")
unfoldable pub has_line_break : String → Bool
has_line_break String.[] = false
has_line_break (String.◌∷◌ c s) = code c == 13 || code c == 10 || has_line_break s

module _ (go : Go) where
  -- The loop over the headers: the first that is refused ends it.
  unfoldable pub validate_headers : List (String × String) → Option String
  unfolding valid_header_name has_line_break
  validate_headers [] = none
  validate_headers ((name, value) ∷ headers) =
      if not (valid_header_name go name)
      then some "http: invalid header name"
      else if has_line_break value
      then some "http: invalid value for header: contains invalid chars"
      else validate_headers headers

  unfoldable pub validate_http : HttpMessage → Option String
  unfolding effective_method validate_headers
  validate_http m = elim (go.parse_url (go.trim_space m.url)) [
    | none ↦ some "http: invalid URL"
    | some u ↦
        if not (str_eq u.scheme "http") && not (str_eq u.scheme "https")
        then some "http: URL must use http or https"
        else if str_eq u.host ""
        then some "http: URL must include a host"
        else if not (go.request_is_valid (effective_method go m) u.text)
        then some "http: invalid request"
        else validate_headers m.headers
  ]

  -- Validate, on the message behind the interface: the message after it, and its error.
  unfoldable pub validate : Message → Message × Option String
  unfolding validate_sms validate_email validate_mattermost validate_http
  validate (sms m) = let (m', e) = validate_sms m in (sms m', e)
  validate (email m) = (email m, validate_email m)
  validate (mattermost m) = (mattermost m, validate_mattermost m)
  validate (bale m) = (bale m, none)
  validate (http m) = (http m, validate_http m)

  -- UnmarshalMessage
  unfoldable pub unmarshal_message : Channel → Bytes → Option Message
  unmarshal_message channel bytes =
      if str_eq channel channel_sms
      then wrap sms (go.decode_sms bytes)
      else if str_eq channel channel_email
      then wrap email (go.decode_email bytes)
      else if str_eq channel channel_mattermost
      then wrap mattermost (go.decode_mattermost bytes)
      else if str_eq channel channel_bale
      then wrap bale (go.decode_bale bytes)
      else if str_eq channel channel_http
      then wrap http (go.decode_http bytes)
      else none
