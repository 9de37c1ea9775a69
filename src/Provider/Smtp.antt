-- ===== src/Provider/Smtp.antt =====
-- server/internal/service/email/smtp.go: the dialogue with the mail server. What the network, the
-- server and the packages net/smtp, crypto/tls and gomail answer is given.
use kaftar.Prelude.{
  ℕ, String, Option, none, some, List, [], ◌∷◌, ◌++◌, Bool, true, false, not, str_eq, ◌==◌,
  if◌then◌else◌,
}
use kaftar.Entity.Message.{Bytes}
use kaftar.Provider.Client.{ProviderError, deadline_exceeded, failure, Result, ok, err}

pub record Config : Type 0 where
  pub host : String
  pub port : ℕ
  pub username : String
  pub password : String
  pub from_address : String

-- A gomail.Message as the sender fills it: its headers in the order they are set, its body with
-- the type of it, and the files attached.
pub record MailFile : Type 0 where
  pub name : String
  pub content_type : Option String
  pub content : Bytes

pub record Mail : Type 0 where
  pub headers : List (String × List String)
  pub body_type : String
  pub body : String
  pub files : List MailFile

-- What goes to the server: the greeting, the credentials, the sender, a recipient, the content.
pub data Command : Type 0 where
  greeting : Command
  credentials : String → String → Command
  sender_of recipient : String → Command
  content_of : Mail → Command

-- A command, and whether the connection is encrypted when it goes out.
pub record Event : Type 0 where
  pub encrypted : Bool
  pub command : Command

-- What each call answers, in the order of the dialogue. `envelope` is what gomail.Send finds in the
-- headers: the sender's address and the recipients', and `sending` the error it makes of one that
-- the send function returns. At the end, the error of the context and whether its time is over.
pub record Server : Type 0 where
  pub connect : Result (Unit {0})
  pub set_deadline : Result (Unit {0})
  pub handshake : Result (Unit {0})
  pub new_client : Result (Unit {0})
  pub supports_tls : Bool
  pub start_tls : Result (Unit {0})
  pub auth : String → String → Result (Unit {0})
  pub envelope : Mail → Result (String × List String)
  pub mail : String → Result (Unit {0})
  pub rcpt : String → Result (Unit {0})
  pub start_data : Result (Unit {0})
  pub write : Mail → Result (Unit {0})
  pub close : Result (Unit {0})
  pub sending : ProviderError → ProviderError
  pub context_error : Option ProviderError
  pub time_over : Bool

-- A result, and the commands that went out before it.
pub record Talk {ℓ} (A : Type ℓ) : Type ℓ where
  pub result : Result A
  pub events : List Event

abbrev pub after {ℓ} : {A : Type ℓ} → List Event → Talk A → Talk A
after events t = record { result = t.result; events = events ++ t.events }

abbrev pub follow {ℓ κ} : {A : Type ℓ} {B : Type κ} → Result A → List Event → (A → Talk B) → Talk B
follow (ok a) events next = after events (next a)
follow (err e) events next = record { result = err e; events = events }

abbrev pub ◌>>=◌ {ℓ κ} : {A : Type ℓ} {B : Type κ} → Talk A → (A → Talk B) → Talk B
t >>= next = follow t.result t.events next

infixl 5 ◌>>=◌
abbrev pub ◌>>◌ {ℓ} : {A : Type ℓ} → Talk (Unit {0}) → Talk A → Talk A
first >> rest = first >>= λ _. rest

infixl 5 ◌>>◌
-- A call that sends nothing by itself, and one that sends a command.
abbrev pub quietly {ℓ} : {A : Type ℓ} → Result A → Talk A
quietly r = record { result = r; events = [] }

abbrev pub say : Bool → Command → Result (Unit {0}) → Talk (Unit {0})
say encrypted command r = record {
  result = r;
  events = record { encrypted = encrypted; command = command } ∷ [];
}

abbrev pub implicit_tls : Config → Bool
implicit_tls config = config.port == 465

abbrev pub sending_error {ℓ} : {A : Type ℓ} → Server → Result A → Result A
sending_error server (ok a) = ok a
sending_error server (err e) = err (server.sending e)

module _ (server : Server) where
  -- TLS from the start on port 465.
  unfoldable pub begin_tls : Config → Talk (Unit {0})
  begin_tls config = if implicit_tls config then quietly server.handshake else quietly (ok tt)

  -- STARTTLS on another port: whether the connection is encrypted then.
  unfoldable pub upgrade : Config → Talk Bool
  upgrade config =
      if implicit_tls config
      then quietly (ok true)
      else if server.supports_tls
      then (quietly server.start_tls >> quietly (ok true))
      else if not (str_eq config.username "")
      then quietly (err (failure "email: TLS is required for authentication"))
      else quietly (ok false)

  unfoldable pub authenticate : Bool → Config → Talk (Unit {0})
  authenticate encrypted config =
      if str_eq config.username ""
      then quietly (ok tt)
      else say encrypted (credentials config.username config.password)
          (server.auth config.username config.password)

  unfoldable pub name_recipients : Bool → List String → Talk (Unit {0})
  name_recipients encrypted [] = quietly (ok tt)
  name_recipients encrypted (r ∷ rest) = do
    say encrypted (recipient r) (server.rcpt r)
    name_recipients encrypted rest

  -- The function that gomail.Send is given.
  unfoldable pub transfer : Bool → Mail → String → List String → Talk (Unit {0})
  unfolding name_recipients
  transfer encrypted mail from recipients = do
    say encrypted (sender_of from) (server.mail from)
    name_recipients encrypted recipients
    quietly server.start_data
    say encrypted (content_of mail) (server.write mail)
    quietly server.close

  -- gomail.Send, of one message.
  unfoldable pub submit_mail : Bool → Mail → Talk (Unit {0})
  unfolding transfer
  submit_mail encrypted mail = do
    (from, recipients) ← quietly (server.envelope mail)
    let t = transfer encrypted mail from recipients
    record { result = sending_error server t.result; events = t.events }

  unfoldable pub dialogue : Config → Mail → Talk (Unit {0})
  unfolding begin_tls upgrade authenticate submit_mail
  dialogue config mail = do
    quietly server.connect
    quietly server.set_deadline
    begin_tls config
    say (implicit_tls config) greeting server.new_client
    encrypted ← upgrade config
    authenticate encrypted config
    submit_mail encrypted mail

  -- The deferred function: the context's error is reported in place of what it caused.
  unfoldable pub replaced : Result (Unit {0}) → Result (Unit {0})
  replaced (ok u) = ok u
  replaced (err e) = elim server.context_error [
    | some c ↦ err c
    | none ↦ if server.time_over then err deadline_exceeded else err e
  ]

  -- (*smtpDialer).DialAndSend
  unfoldable pub dial_and_send : Config → Mail → Talk (Unit {0})
  unfolding dialogue replaced
  dial_and_send config mail =
      let t = dialogue config mail in record { result = replaced t.result; events = t.events }
