-- ===== src/Api/Dto.antt =====
-- server/internal/api/dto: what the endpoints read and answer. `decode` is base64's DecodeString.
use kaftar.Prelude.{ℕ, String, Option, none, some, List, [], ◌∷◌, ◌||◌, if◌then◌else◌, str_eq, ℤ}
use kaftar.Entity.Time.{Time}
use kaftar.Entity.State
use kaftar.Entity.Outbox.{OutboxStatus}
use kaftar.Entity.Message.{
  Bytes, Attachment, SmsMessage, EmailMessage, MattermostMessage, BaleMessage, HttpMessage,
}
use kaftar.Repo.Model.{Uuids}

pub record AttachmentDto : Type 0 where
  pub name : String
  pub content_type : String
  pub size : ℤ
  pub data_base64 : String

abbrev pub content_type_of : String → String
content_type_of t = if str_eq t "" then "application/octet-stream" else t

module _ (decode : String → Option Bytes) where
  -- One turn of the loop: an attachment without a name or without data is left out.
  abbrev pub with_attachment :
      AttachmentDto → Option Bytes → Option (List Attachment) → Option (List Attachment)
  with_attachment att none rest = none
  with_attachment att (some bytes) none = none
  with_attachment att (some bytes) (some rest) = some (
      record {
        name = att.name;
        content_type = content_type_of att.content_type;
        size = att.size;
        content = bytes;
      }
      ∷ rest)

  -- AttachmentToEntity: none is an error.
  unfoldable pub attachment_to_entity : List AttachmentDto → Option (List Attachment)
  attachment_to_entity [] = some []
  attachment_to_entity (att ∷ atts) =
      let rest = attachment_to_entity atts in
      if str_eq att.name "" || str_eq att.data_base64 ""
      then rest
      else with_attachment att (decode att.data_base64) rest

pub record BaleDto : Type 0 where
  pub chat_id : String
  pub text : String
  pub attachments : List AttachmentDto

pub record MattermostDto : Type 0 where
  pub channel_id : String
  pub text : String
  pub title : String
  pub attachments : List AttachmentDto

pub record EmailDto : Type 0 where
  pub to : List String
  pub cc : List String
  pub bcc : List String
  pub subject : String
  pub html_body : String
  pub text_body : String
  pub attachments : List AttachmentDto

-- SMSMessage and HTTPMessage of the package have the fields of the entities.
abbrev pub SmsDto : Type 0
SmsDto = SmsMessage

abbrev pub HttpDto : Type 0
HttpDto = HttpMessage

abbrev pub map_some {ℓ κ} : {A : Type ℓ} {B : Type κ} → (A → B) → Option A → Option B
map_some f none = none
map_some f (some a) = some (f a)

-- The methods ToEntity.
unfoldable pub sms_to_entity : SmsDto → SmsMessage
sms_to_entity m = record { to = m.to; text = m.text }

unfoldable pub http_to_entity : HttpDto → HttpMessage
http_to_entity m = record { url = m.url; method = m.method; headers = m.headers; body = m.body }

module _ (decode : String → Option Bytes) where
  unfoldable pub bale_to_entity : BaleDto → Option BaleMessage
  unfolding attachment_to_entity
  bale_to_entity m =
      map_some (λ atts. record { chat_id = m.chat_id; text = m.text; attachments = atts })
        (attachment_to_entity decode m.attachments)

  unfoldable pub mattermost_to_entity : MattermostDto → Option MattermostMessage
  unfolding attachment_to_entity
  mattermost_to_entity m =
      map_some
        (λ atts. record {
          channel_id = m.channel_id;
          text = m.text;
          title = m.title;
          attachments = atts;
        })
        (attachment_to_entity decode m.attachments)

  unfoldable pub email_to_entity : EmailDto → Option EmailMessage
  unfolding attachment_to_entity
  email_to_entity m =
      map_some
        (λ atts. record {
          to = m.to;
          cc = m.cc;
          bcc = m.bcc;
          subject = m.subject;
          html_body = m.html_body;
          text_body = m.text_body;
          attachments = atts;
        })
        (attachment_to_entity decode m.attachments)

pub record MessageStatus : Type 0 where
  pub id : String
  pub channel : String
  pub status : ℤ
  pub status_text : String
  pub retry_count : ℕ
  pub max_retries : ℤ
  pub next_retry_at : Option Time
  pub last_error : String
  pub sent_at : Option Time
  pub created_at : Option Time
  pub updated_at : Option Time

-- NewMessageStatus
unfoldable pub new_message_status : Uuids → OutboxStatus → MessageStatus
unfolding State.to_int State.to_string
new_message_status uuids s = record {
  id = uuids.print s.id;
  channel = s.channel;
  status = State.to_int s.state;
  status_text = State.to_string s.state;
  retry_count = s.retry_count;
  max_retries = s.max_retries;
  next_retry_at = s.next_retry_at;
  last_error = s.last_error;
  sent_at = s.sent_at;
  created_at = s.created_at;
  updated_at = s.updated_at;
}
