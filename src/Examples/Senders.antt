-- ===== src/Examples/Senders.antt =====
-- Providers that accept a chat message and a mail.
use kaftar.Prelude.{◌≡◌, refl, none, some, [], ◌∷◌, true, false, pos, str_eq, All}
use kaftar.Entity.Message.{
  BaleMessage, MattermostMessage, EmailMessage, Attachment, mattermost, email, validate_email,
  validate_mattermost,
}
use kaftar.Provider.Client.{ok, Response}
use kaftar.Provider.Bale
use kaftar.Provider.Bale.{BaleApi}
use kaftar.Provider.Mattermost
use kaftar.Provider.Mattermost.{MattermostApi}
use kaftar.Provider.Chat.{IsDelivered, mattermost_send_lem, send_text}
use kaftar.Provider.Smtp.{Config, Server}
use kaftar.Provider.Email
use kaftar.Provider.Email.{EmailSender, compose}
use kaftar.Provider.Secrecy.{IsSecret, send-IsSecret}
use kaftar.Provider.Mailed.{IsMailed, email_send_lem}

abbrev file : Attachment
file = record { name = "a.txt"; content_type = "text/plain"; size = pos 1; content = 1 ∷ [] }

abbrev note : BaleMessage
note = record { chat_id = "1"; text = "hello"; attachments = file ∷ [] }

abbrev taken : Response
taken = record { status_code = 200; body = ok (1 ∷ []) }

abbrev bale_api : BaleApi
bale_api = record {
  to_bytes = λ s. [];
  build = λ call. ok tt;
  perform = λ call. ok taken;
  decode = λ b. some (record { accepted = true; result = b; error_code = pos 0 });
  decode_id = λ b. some (pos 7);
  print = λ n. "200";
  print_int = λ n. "0";
}

abbrev post : MattermostMessage
post = record { channel_id = "1"; text = "hello"; title = "greeting"; attachments = file ∷ [] }

abbrev created : Response
created = record { status_code = 201; body = ok (1 ∷ []) }

abbrev mattermost_api : MattermostApi
mattermost_api = record {
  to_bytes = λ s. [];
  build_post = λ r. ok tt;
  perform_post = λ r. ok created;
  decode_post = λ b. some "post";
  build_upload = λ u. ok tt;
  perform_upload = λ u. ok created;
  decode_upload = λ b. ok ("file" ∷ []);
  print = λ n. "201";
}

mattermost_sent : Mattermost.send mattermost_api (mattermost post) ≡ none
unfolding Mattermost.send
mattermost_sent = refl

mattermost_send_example :
    (m : MattermostMessage) × (mattermost post ≡ mattermost m)
    × (validate_mattermost m ≡ none)
    × IsDelivered mattermost_api m
mattermost_send_example = mattermost_send_lem mattermost_api (mattermost post) mattermost_sent

titled : str_eq "greeting" "" ≡ false
titled = refl

send_text_example :
    Mattermost.send mattermost_api (mattermost (record post { text = "urgent" }))
    ≡ Mattermost.send mattermost_api (mattermost post)
send_text_example = send_text mattermost_api post file "urgent" titled refl

abbrev config : Config
config = record {
  host = "mail";
  port = 587;
  username = "user";
  password = "secret";
  from_address = "";
}

abbrev mail_sender : EmailSender
mail_sender = record { config = config; from_address = "user" }

abbrev letter : EmailMessage
letter = record {
  to = "a@b" ∷ [];
  cc = [];
  bcc = "c@d" ∷ [];
  subject = "greeting";
  html_body = "";
  text_body = "hello";
  attachments = file ∷ [];
}

abbrev server : Server
server = record {
  connect = ok tt;
  set_deadline = ok tt;
  handshake = ok tt;
  new_client = ok tt;
  supports_tls = true;
  start_tls = ok tt;
  auth = λ user password. ok tt;
  envelope = λ mail. ok ("user", "a@b" ∷ "c@d" ∷ []);
  mail = λ from. ok tt;
  rcpt = λ to. ok tt;
  start_data = ok tt;
  write = λ mail. ok tt;
  close = ok tt;
  sending = λ e. e;
  context_error = none;
  time_over = false;
}

sender_made : Email.new (λ address. none) config ≡ ok mail_sender
unfolding Email.new
sender_made = refl

send-IsSecret_example : All IsSecret (Email.send server mail_sender none (email letter)).1
send-IsSecret_example =
    send-IsSecret (λ address. none) config mail_sender sender_made server none (email letter)

mail_sent : (Email.send server mail_sender none (email letter)).0 ≡ none
unfolding Email.send validate_email
mail_sent = refl

email_send_example :
    (m : EmailMessage) × (email letter ≡ email m)
    × (validate_email m ≡ none)
    × IsMailed server (compose mail_sender.from_address m)
email_send_example = email_send_lem server mail_sender none (email letter) mail_sent
