-- ===== src/Provider/Secrecy.antt =====
-- What the mail server is told, and when; what a mail sent without an error means.
use kaftar.Prelude.{
  String, ◌≡◌, ◌⊎◌, refl, Option, List, [], ◌∷◌, Bool, true, false, not, All, All-append, arith,
  str_eq, Bool-cases, inl, inr, ◌==◌,
}
use kaftar.Entity.Message.{Message, EmailMessage}
use kaftar.Provider.Client.{ProviderError, Result, ok, err}
use kaftar.Provider.Inversion.{bind_unit, guard-ok}
use kaftar.Provider.Smtp.{
  Config, Mail, Server, Talk, Event, follow, quietly, greeting, begin_tls, upgrade, authenticate,
  name_recipients, transfer, submit_mail, dialogue, dial_and_send, implicit_tls,
}
use kaftar.Provider.Email
use kaftar.Provider.Email.{EmailSender, compose, send, send_accepted, acceptable, concrete_email}

-- Nothing but the greeting goes out unencrypted.
abbrev pub IsSecret : Event → Type 0
IsSecret e = (e.command ≡ greeting) ⊎ (e.encrypted ≡ true)

module _ {A B : Type 0} where
  follow-All :
      (r : Result A) (es : List Event) (next : A → Talk B)
      → All IsSecret es
      → ((a : A) → r ≡ ok a → All IsSecret (next a).events)
      → All IsSecret (follow r es next).events
  follow-All (ok a) es next h k = All-append IsSecret es (next a).events h (k a refl)
  follow-All (err e) es next h k = h

IsSecure : Talk Bool → Type 0
IsSecure t = (t.events ≡ []) × ((b : Bool) → t.result ≡ ok b → b ≡ true)

after_tls : (r : Result (Unit {0})) → IsSecure (follow r [] (λ u. quietly (ok true)))
unfolding IsSecure
after_tls (ok u) = (refl, λ b h. ground arith)
after_tls (err e) = (refl, λ b h. absurd (ground arith))

module _ (server : Server) where
  upgraded :
      (config : Config) → str_eq config.username "" ≡ false → IsSecure (upgrade server config)
  unfolding upgrade IsSecure
  upgraded config h = elim (Bool-cases (implicit_tls config)) [
    | inl i ↦ rw (i) (refl, λ b e. ground arith)
    | inr i ↦ elim (Bool-cases server.supports_tls) [
      | inl t ↦ rw (i, t) (after_tls server.start_tls)
      | inr t ↦ rw (i, t, h) (refl, λ b e. absurd (ground arith))
    ]
  ]

  named : (recipients : List String) → All IsSecret (name_recipients server true recipients).events
  unfolding name_recipients
  named [] = tt
  named (r ∷ rest) = follow-All (server.rcpt r) _ _ (inr refl, tt) (λ u e. named rest)

  transferred :
      (mail : Mail) (from : String) (recipients : List String)
      → All IsSecret (transfer server true mail from recipients).events
  unfolding transfer
  transferred mail from recipients =
      follow-All (server.mail from) _ _ (inr refl, tt)
        λ u e.
          follow-All (name_recipients server true recipients).result _ _ (named recipients) λ u e.
            follow-All server.start_data [] _ tt
              λ u e. follow-All (server.write mail) _ _ (inr refl, tt) λ u e. tt

  submitted : (mail : Mail) → All IsSecret (submit_mail server true mail).events
  unfolding submit_mail
  submitted mail =
      follow-All (server.envelope mail) [] _ tt
        λ (from, recipients) e. transferred mail from recipients

  begun : (config : Config) → (begin_tls server config).events ≡ []
  unfolding begin_tls
  begun config = elim (Bool-cases (implicit_tls config)) [
    | inl i ↦ rw (i) refl
    | inr i ↦ rw (i) refl
  ]

  authenticated : (config : Config) → All IsSecret (authenticate server true config).events
  unfolding authenticate
  authenticated config = elim (Bool-cases (str_eq config.username "")) [
    | inl i ↦ rw (i) tt
    | inr i ↦ rw (i) (inr refl, tt)
  ]

  after_upgrade :
      (config : Config) (mail : Mail) (b : Bool)
      → b ≡ true
      → All IsSecret
          (follow
            (authenticate server b config).result
            (authenticate server b config).events
            λ u. submit_mail server b mail).events
  after_upgrade config mail true h =
      follow-All (authenticate server true config).result _ _ (authenticated config)
        λ u e. submitted mail
  after_upgrade config mail false h = absurd (ground arith)

  dialogue-All :
      (config : Config) (mail : Mail)
      → str_eq config.username "" ≡ false
      → All IsSecret (dialogue server config mail).events
  unfolding dialogue IsSecure
  dialogue-All config mail h =
      let (quiet, secure) = upgraded config h in
      follow-All server.connect [] _ tt λ u e. follow-All server.set_deadline [] _ tt λ u e.
        follow-All (begin_tls server config).result _ _ (rw (begun config) tt) λ u e.
          follow-All server.new_client _ _ (inl refl, tt)
            λ u e.
              follow-All (upgrade server config).result _ _ (rw quiet tt)
                λ b e. after_upgrade config mail b (secure b e)

new-username :
    (parse : String → Option ProviderError) (config : Config) (sender : EmailSender)
    → Email.new parse config ≡ ok sender
    → str_eq sender.config.username "" ≡ false
unfolding Email.new
new-username parse config sender h =
    let (a, h1) = guard-ok (not (str_eq config.host "")) _ _ h in
    let (b, h2) = guard-ok (not (config.port == 0)) _ _ h1 in
    let (c, h3) = guard-ok (not (str_eq config.username "")) _ _ h2 in
    let (d, h4) = guard-ok (not (str_eq config.password "")) _ _ h3 in
    let (e, h5) = bind_unit (Email.parse_from parse config.from_address) _ h4 in
    grind (arith, c, h5)

accepted-All :
    (server : Server) (sender : EmailSender) (r : Result EmailMessage)
    → str_eq sender.config.username "" ≡ false
    → All IsSecret (send_accepted server sender r).events
unfolding send_accepted dial_and_send
accepted-All server sender (err e) h = tt
accepted-All server sender (ok m) h =
    dialogue-All server sender.config (compose sender.from_address m) h

-- Whatever the server and the network answer, a sender that New has made sends nothing but the
-- greeting over a connection that is not encrypted: neither the credentials, nor the addresses,
-- nor the content.
pub send-IsSecret :
    (parse : String → Option ProviderError) (config : Config) (sender : EmailSender)
    → Email.new parse config ≡ ok sender
    → (server : Server) (context : Option ProviderError) (message : Message)
    → All IsSecret (send server sender context message).1
unfolding send
send-IsSecret parse config sender h server context message =
    accepted-All server sender (acceptable context message) (new-username parse config sender h)
