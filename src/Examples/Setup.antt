-- ===== src/Examples/Setup.antt =====
-- A configuration with two channels, and an attachment in JSON.
use kaftar.Prelude.{◌≡◌, refl, none, some, [], ◌∷◌, true, false, pos, str_eq, str_eq_iff}
use kaftar.Entity.Message.{Attachment}
use kaftar.Entity.Attachments.{
  Codec, written, ReadsBack, marshal_attachment, unmarshal_attachment, no_attachment,
  unmarshal_attachment-marshal_attachment,
}
use kaftar.Service.Workers.{stopped}
use kaftar.App.Config.{Config}
use kaftar.App.Senders.{Libraries}
use kaftar.App.Startup.{Packages, Found, Application, launched, application, new_app}
use kaftar.App.Starting.{IsReady, new_app-IsReady}
use kaftar.Entity.Channel.{channel_sms, channel_mattermost}
use kaftar.Repo.Migrate.{migrate}
use kaftar.Examples.{svc, noon}
use kaftar.Examples.Providers.{net}

abbrev libraries : Libraries
libraries = record {
  parse_address = λ s. none;
  parse_url = λ s.
      some
        (record { scheme = "https"; hostname = "m"; user = false; raw_query = ""; fragment = "" });
  net = net;
}

abbrev config : Config
config = record {
  dev_mode = false;
  message_retry_max_age = pos 0;
  http_port = 80;
  postgres = record {
    host = "d";
    port = 5432;
    user = "u";
    pass = "p";
    db_name = "k";
    schema = "s";
  };
  sms = record { enabled = true; api_key = "k"; phone = "1" };
  email = record {
    enabled = false;
    host = "";
    port = 0;
    username = "";
    password = "";
    from_address = "";
  };
  mattermost = record { enabled = true; mattermost_url = "https://m"; pat = "t" };
  bale = record { enabled = false; bot_token = "" };
  http_sender = record {
    allowed_destinations = [];
    allowed_private_cidrs = [];
    enabled = false;
    request_body_max_bytes = pos 10;
    response_body_max_bytes = pos 10;
  };
  rabbitmq = record { host = "r"; port = pos 5672; username = "u"; password = "p" };
  health = record { check_timeout = pos 3; component_timeout = pos 2 };
  metrics = record { outbox_refresh_interval = pos 15; outbox_refresh_timeout = pos 2 };
}

abbrev packages : Packages
packages = record { go = svc.go; uuids = svc.uuids; canonical = svc.canonical; digest = svc.digest }

abbrev found : Found
found = record {
  connect_fault = none;
  migration = record { postgres = true; clock = noon; fault = λ s. none };
  database = record { rows = []; recorded = false; key_index = false };
  handle_fault = none;
}

abbrev app : Application
app =
    application packages config (record { rows = []; recorded = true; key_index = true })
      (channel_sms ∷ channel_mattermost ∷ [])
      ((channel_mattermost, stopped) ∷ (channel_sms, stopped) ∷ [])

app_launched : new_app packages config libraries found ≡ launched app
unfolding new_app migrate
app_launched = refl

new_app-IsReady_example : IsReady config found app
new_app-IsReady_example = new_app-IsReady packages libraries config found app app_launched

abbrev attachment : Attachment
attachment = record { name = "a.txt"; content_type = ""; size = pos 1; content = 1 ∷ [] }

-- The codec knows this attachment.
abbrev codec : Codec
codec = record {
  to_json = λ x. 1 ∷ [];
  of_json = λ b.
      some (written (record { encoded = "AQ=="; name = "a.txt"; content_type = ""; size = pos 1 }));
  encode_base64 = λ b. "AQ==";
  decode_base64 = λ s. some (1 ∷ []);
}

encoded : str_eq "AQ==" "" ≡ false
encoded = refl

reads_back : ReadsBack codec attachment
reads_back = record {
  json = refl;
  base64 = refl;
  no_bytes = λ e. absurd (cc (encoded, (str_eq_iff "AQ==" "").1 e));
}

unmarshal_attachment-marshal_attachment_example :
    unmarshal_attachment codec (marshal_attachment codec attachment) no_attachment ≡ some attachment
unmarshal_attachment-marshal_attachment_example =
    unmarshal_attachment-marshal_attachment codec attachment reads_back
