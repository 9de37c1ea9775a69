-- ===== src/Provider/Mailed.antt =====
-- What a mail that was sent without an error means.
use kaftar.Prelude.{
  String, ◌≡◌, refl, Option, none, some, List, [], ◌∷◌, Bool, All, arith, Bool-cases, Option-cases,
  inl, inr,
}
use kaftar.Entity.Message.{
  Message, EmailMessage, email, sms, mattermost, bale, http, validate_email,
}
use kaftar.Provider.Client.{ProviderError, Result, ok, err}
use kaftar.Provider.Inversion.{bind-ok, bind_unit, no_error, unsafe_none}
use kaftar.Provider.Smtp.{
  Config, Mail, Server, Talk, Event, follow, begin_tls, upgrade, authenticate, name_recipients,
  transfer, submit_mail, dialogue, dial_and_send, replaced, sending_error,
}
use kaftar.Provider.Email
use kaftar.Provider.Email.{EmailSender, compose, send, send_accepted, acceptable, concrete_email}

-- The server took the mail from the sender for every recipient.
pub record IsMailed (server : Server) (mail : Mail) : Type 0 where
  pub from : String
  pub recipients : List String
  pub addressed : server.envelope mail ≡ ok (from, recipients)
  pub sender_accepted : server.mail from ≡ ok tt
  pub all_accepted : All (λ r. server.rcpt r ≡ ok tt) recipients
  pub written : server.write mail ≡ ok tt
  pub closed : server.close ≡ ok tt

module _ {A B : Type 0} where
  follow-ok :
      (r : Result A) (es : List Event) (next : A → Talk B) (b : B)
      → (follow r es next).result ≡ ok b
      → (a : A) × (r ≡ ok a) × ((next a).result ≡ ok b)
  follow-ok (ok a) es next b h = (a, refl, h)
  follow-ok (err e) es next b h = absurd (ground arith)

follow_unit :
    {B : Type 0} (r : Result (Unit {0})) (es : List Event) (next : Talk B) (b : B)
    → (follow r es λ u. next).result ≡ ok b
    → (r ≡ ok tt) × (next.result ≡ ok b)
follow_unit (ok a) es next b h = (refl, h)
follow_unit (err e) es next b h = absurd (ground arith)

module _ (server : Server) where
  recipients_accepted :
      (encrypted : Bool) (recipients : List String)
      → (name_recipients server encrypted recipients).result ≡ ok tt
      → All (λ r. server.rcpt r ≡ ok tt) recipients
  unfolding name_recipients
  recipients_accepted encrypted [] h = tt
  recipients_accepted encrypted (r ∷ rest) h =
      let (a, h') = follow_unit (server.rcpt r) _ (name_recipients server encrypted rest) tt h in
      (a, recipients_accepted encrypted rest h')

  sent_well : (r : Result (Unit {0})) → sending_error server r ≡ ok tt → r ≡ ok tt
  sent_well (ok u) h = h
  sent_well (err e) h = absurd (ground arith)

  mailed :
      (encrypted : Bool) (mail : Mail)
      → (submit_mail server encrypted mail).result ≡ ok tt
      → IsMailed server mail
  unfolding submit_mail transfer
  mailed encrypted mail h =
      let ((from, recipients), e, h1) = follow-ok (server.envelope mail) [] _ tt h in
      let h2 = sent_well (transfer server encrypted mail from recipients).result h1 in
      let (s, h3) = follow_unit (server.mail from) _ _ tt h2 in
      let (n, h4) = follow_unit (name_recipients server encrypted recipients).result _ _ tt h3 in
      let (d, h5) = follow_unit server.start_data [] _ tt h4 in
      let (w, c) = follow_unit (server.write mail) _ _ tt h5 in
      record {
        from = from;
        recipients = recipients;
        addressed = e;
        sender_accepted = s;
        all_accepted = recipients_accepted encrypted recipients n;
        written = w;
        closed = c;
      }

  not_replaced : (r : Result (Unit {0})) → replaced server r ≡ ok tt → r ≡ ok tt
  unfolding replaced
  not_replaced (ok u) h = h
  not_replaced (err e) h = elim (Option-cases server.context_error) [
    | inr (c, n) ↦ absurd (grind (arith, n, h))
    | inl n ↦ elim (Bool-cases server.time_over) [
      | inl t ↦ absurd (grind (arith, n, t, h))
      | inr t ↦ absurd (grind (arith, n, t, h))
    ]
  ]

  dialled :
      (config : Config) (mail : Mail)
      → (dial_and_send server config mail).result ≡ ok tt
      → IsMailed server mail
  unfolding dial_and_send dialogue
  dialled config mail h =
      let h0 = not_replaced (dialogue server config mail).result h in
      let (c, h1) = follow_unit server.connect [] _ tt h0 in
      let (d, h2) = follow_unit server.set_deadline [] _ tt h1 in
      let (b, h3) = follow_unit (begin_tls server config).result _ _ tt h2 in
      let (g, h4) = follow_unit server.new_client _ _ tt h3 in
      let (encrypted, u, h5) = follow-ok (upgrade server config).result _ _ tt h4 in
      let (a, h6) = follow_unit (authenticate server encrypted config).result _ _ tt h5 in
      mailed encrypted mail h6

email_only :
    (message : Message) (m : EmailMessage) → concrete_email message ≡ ok m → message ≡ email m
email_only (email n) m h = grind (arith, h)
email_only (sms n) m h = absurd (ground arith)
email_only (mattermost n) m h = absurd (ground arith)
email_only (bale n) m h = absurd (ground arith)
email_only (http n) m h = absurd (ground arith)

validated : (o : Option String) → Email.of_text o ≡ ok tt → o ≡ none
validated none h = refl
validated (some e) h = absurd (ground arith)

accepted-ok :
    (context : Option ProviderError) (message : Message) (m : EmailMessage)
    → acceptable context message ≡ ok m
    → (message ≡ email m) × (validate_email m ≡ none)
unfolding acceptable
accepted-ok context message m h =
    let (c, h1) = bind_unit (Email.of_context context) _ h in
    let (n, o, h2) = bind-ok (concrete_email message) _ h1 in
    let (v, e) = bind_unit (Email.of_text (validate_email n)) _ h2 in
    grind (arith, email_only message n o, validated (validate_email n) v, e)

accepted_send :
    (server : Server) (sender : EmailSender) (r : Result EmailMessage)
    → (send_accepted server sender r).result ≡ ok tt
    → (m : EmailMessage) × (r ≡ ok m) × IsMailed server (compose sender.from_address m)
unfolding send_accepted
accepted_send server sender (ok m) h =
    (m, refl, dialled server sender.config (compose sender.from_address m) h)
accepted_send server sender (err e) h = absurd (ground arith)

-- If the email sender's Send reports no error, the message is a valid email, and the server took
-- the mail composed of it: the sender's address, every recipient that the mail's headers name,
-- and the content to its end.
pub email_send_lem :
    (server : Server) (sender : EmailSender) (context : Option ProviderError) (message : Message)
    → (send server sender context message).0 ≡ none
    → (m : EmailMessage) × (message ≡ email m)
      × (validate_email m ≡ none)
      × IsMailed server (compose sender.from_address m)
unfolding send
email_send_lem server sender context message h =
    let t = send_accepted server sender (acceptable context message) in
    let done = no_error t.result (unsafe_none "email" _ h) in
    let (m, a, mailed_well) = accepted_send server sender (acceptable context message) done in
    let (e, v) = accepted-ok context message m a in (m, e, v, mailed_well)
