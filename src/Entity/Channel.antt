-- ===== src/Entity/Channel.antt =====
-- server/internal/entity/channel.go. A channel is a text: any text can arrive in an envelope or
-- stand in a row, and `is_valid` says which are named.
use kaftar.Prelude.{String, Bool, ◌||◌, str_eq}

abbrev pub Channel : Type 0
Channel = String

abbrev pub channel_email : Channel
channel_email = "email"

abbrev pub channel_sms : Channel
channel_sms = "sms"

abbrev pub channel_telegram : Channel
channel_telegram = "telegram"

abbrev pub channel_discord : Channel
channel_discord = "discord"

abbrev pub channel_mattermost : Channel
channel_mattermost = "mattermost"

abbrev pub channel_bale : Channel
channel_bale = "bale"

abbrev pub channel_http : Channel
channel_http = "http"

unfoldable pub is_valid : Channel → Bool
is_valid c =
    str_eq c channel_email
    || str_eq c channel_sms
    || str_eq c channel_telegram
    || str_eq c channel_discord
    || str_eq c channel_mattermost
    || str_eq c channel_bale
    || str_eq c channel_http
