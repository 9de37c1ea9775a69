-- ===== src/Provider/Email.antt =====
-- server/internal/service/email/sender.go: the sender, and the mail it composes of a message.
use kaftar.Prelude.{
  String, Option, none, some, List, [], ◌∷◌, ◌++◌, not, str_eq, ◌==◌, if◌then◌else◌,
}
use kaftar.Entity.Message.{Message, EmailMessage, Attachment, email, is_empty, validate_email}
use kaftar.Provider.Client.{
  ProviderError, unclassified, wrapped, Result, ok, err, ◌>>=◌, ◌>>◌, guard, safe_error, error_of,
}
use kaftar.Provider.Smtp
use kaftar.Provider.Smtp.{Config, Mail, MailFile, Server, Talk, quietly, dial_and_send}

pub record EmailSender : Type 0 where
  pub config : Config
  pub from_address : String

-- mail.ParseAddress, of which only the error is used.
abbrev pub parse_from : (String → Option ProviderError) → String → Result (Unit {0})
parse_from parse address =
    if str_eq address ""
    then ok tt
    else elim (parse address) [ none ↦ ok tt | some e ↦ err (wrapped "invalid from address" e) ]

-- New
unfoldable pub new : (String → Option ProviderError) → Config → Result EmailSender
new parse config = do
  guard (not (str_eq config.host "")) (unclassified "host is required")
  guard (not (config.port == 0)) (unclassified "port is required")
  guard (not (str_eq config.username "")) (unclassified "username is required")
  guard (not (str_eq config.password "")) (unclassified "password is required")
  parse_from parse config.from_address
  let from = if str_eq config.from_address "" then config.username else config.from_address
  ok (record { config = config; from_address = from })

-- A header that is set only when it has values.
abbrev pub optional_header : String → List String → List (String × List String)
optional_header name values = if is_empty values then [] else (name, values) ∷ []

abbrev pub file_of : Attachment → MailFile
file_of a = record {
  name = a.name;
  content_type = if str_eq a.content_type "" then none else some a.content_type;
  content = a.content;
}

-- Attachments without data are left out.
unfoldable pub files_of : List Attachment → List MailFile
files_of [] = []
files_of (a ∷ rest) =
    let others = files_of rest in if is_empty a.content then others else file_of a ∷ others

-- The calls on gomail.Message.
unfoldable pub compose : String → EmailMessage → Mail
unfolding files_of
compose from m =
    let html = not (str_eq m.html_body "") in
    record {
      headers =
          ("From", from ∷ [])
            ∷ ("To", m.to)
            ∷ ("Subject", m.subject ∷ [])
            ∷ optional_header "Cc" m.cc
          ++ optional_header "Bcc" m.bcc;
      body_type = if html then "text/html" else "text/plain";
      body = if html then m.html_body else m.text_body;
      files = files_of m.attachments;
    }

-- typeCheck
abbrev pub concrete_email : Message → Result EmailMessage
concrete_email (email m) = ok m
concrete_email _ = err (unclassified "unexpected message type")

abbrev pub of_context : Option ProviderError → Result (Unit {0})
of_context none = ok tt
of_context (some e) = err e

abbrev pub of_text : Option String → Result (Unit {0})
of_text none = ok tt
of_text (some text) = err (unclassified text)

-- The tests before the dialogue.
unfoldable pub acceptable : Option ProviderError → Message → Result EmailMessage
acceptable context message = do
  of_context context
  m ← concrete_email message
  of_text (validate_email m)
  ok m

module _ (server : Server) (sender : EmailSender) where
  unfoldable pub send_accepted : Result EmailMessage → Talk (Unit {0})
  unfolding compose dial_and_send
  send_accepted (err e) = quietly (err e)
  send_accepted (ok m) = dial_and_send server sender.config (compose sender.from_address m)

  -- (*sender).Send
  unfoldable pub send : Option ProviderError → Message → Option ProviderError × List Smtp.Event
  unfolding send_accepted acceptable safe_error
  send context message =
      let t = send_accepted (acceptable context message) in
      (safe_error "email" (error_of t.result), t.events)
