-- ===== src/App/Senders.antt =====
-- initService of server/internal/app/app.go: the senders that the configuration enables.
use kaftar.Prelude.{String, Option, none, some, List, [], ◌∷◌, ◌++◌, map, Bool, if◌then◌else◌}
use kaftar.Entity.Channel.{
  Channel, channel_sms, channel_email, channel_mattermost, channel_bale, channel_http,
}
use kaftar.Provider.Client.{ProviderError, unclassified, Result, ok, err, ◌>>=◌, guard}
use kaftar.Provider.Destination.{Net, Policy, new_destination_policy}
use kaftar.Provider.Email
use kaftar.Provider.Email.{EmailSender}
use kaftar.Provider.Mattermost
use kaftar.Provider.Mattermost.{BaseUrl}
use kaftar.Provider.Bale.{valid_token}
use kaftar.Provider.Http
use kaftar.Service.Workers.{Consumers, register_senders}
use kaftar.App.Config.{Config}

-- A sender, with what its New keeps of the configuration.
pub data Sender : Type 0 where
  sms_sender : String → String → Sender
  email_sender : EmailSender → Sender
  mattermost_sender : String → String → Sender
  bale_sender : String → Sender
  http_sender : Http.Config → Policy → Sender

-- The method Channel of each sender.
unfoldable pub channel_of : Sender → Channel
channel_of (sms_sender key phone) = channel_sms
channel_of (email_sender s) = channel_email
channel_of (mattermost_sender url pat) = channel_mattermost
channel_of (bale_sender token) = channel_bale
channel_of (http_sender config policy) = channel_http

-- mail.ParseAddress, url.Parse, and the network packages.
pub record Libraries : Type 0 where
  pub parse_address : String → Option ProviderError
  pub parse_url : String → Option BaseUrl
  pub net : Net

abbrev of_error : Option ProviderError → Result (Unit {0})
of_error none = ok tt
of_error (some e) = err e

module _ (libs : Libraries) (config : Config) where
  unfoldable pub new_email : Result Sender
  unfolding Email.new
  new_email = do
    s ← Email.new libs.parse_address (record {
      host = config.email.host;
      port = config.email.port;
      username = config.email.username;
      password = config.email.password;
      from_address = config.email.from_address;
    })
    ok (email_sender s)

  unfoldable pub new_mattermost : Result Sender
  unfolding Mattermost.new
  new_mattermost = do
    let url = config.mattermost.mattermost_url
    u ← of_error (Mattermost.new url config.mattermost.pat (libs.parse_url url))
    ok (mattermost_sender url config.mattermost.pat)

  unfoldable pub new_bale : Result Sender
  unfolding valid_token
  new_bale = do
    u ← guard (valid_token config.bale.bot_token) (unclassified "bot token can not be empty")
    ok (bale_sender config.bale.bot_token)

  -- http.New; the timeout is not configured.
  unfoldable pub new_http : Result Sender
  unfolding new_destination_policy Http.or_default
  new_http = do
    policy ←
        new_destination_policy libs.net config.http_sender.allowed_destinations
          config.http_sender.allowed_private_cidrs
    ok (
        http_sender
          (Http.or_default (
            some (record {
              timeout = 0;
              request_body_max_bytes = config.http_sender.request_body_max_bytes;
              response_body_max_bytes = config.http_sender.response_body_max_bytes;
            })))
          policy)

  abbrev pub only : Result Sender → Result (List Sender)
  only r = r >>= λ s. ok (s ∷ [])

  abbrev pub if_enabled : Bool → Result Sender → Result (List Sender)
  if_enabled enabled r = if enabled then only r else ok []

  -- The senders, in the order in which initService makes them; the first error ends it.
  unfoldable pub init_senders : Result (List Sender)
  unfolding new_email new_mattermost new_bale new_http
  init_senders = do
    smses ← if_enabled config.sms.enabled (ok (sms_sender config.sms.api_key config.sms.phone))
    emails ← if_enabled config.email.enabled new_email
    mattermosts ← if_enabled config.mattermost.enabled new_mattermost
    bales ← if_enabled config.bale.enabled new_bale
    https ← if_enabled config.http_sender.enabled new_http
    ok (smses ++ (emails ++ (mattermosts ++ (bales ++ https))))

-- What service.New makes of the senders: its channels and consumers.
unfoldable pub init_service : List Sender → Option (List Channel × Consumers)
unfolding register_senders channel_of
init_service senders = register_senders (map (λ s. some (channel_of s)) senders)
