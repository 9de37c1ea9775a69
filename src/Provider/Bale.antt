-- ===== src/Provider/Bale.antt =====
-- server/internal/service/bale/bale.go. What Go's libraries and the provider answer is given.
use kaftar.Prelude.{
  ℕ, String, Option, none, some, List, [], ◌∷◌, Bool, false, not, ◌&&◌, if◌then◌else◌, str_eq, leb,
  ℤ, pos, eqb_ℤ, contains_any, trim_prefix,
}
use Prim.Native.String.{◌++◌ as append, len}
use kaftar.Entity.Message.{Bytes, Message, BaleMessage, Attachment, bale, is_empty}
use kaftar.Provider.Client.{
  ProviderError, failure, unclassified, safe_error, Result, ok, err, ◌>>=◌, ◌>>◌, guard, error_of,
  Response, response,
}

abbrev pub text_limit : ℕ
text_limit = 4000

-- New: whether a token is one.
unfoldable pub valid_token : String → Bool
unfolding contains_any trim_prefix
valid_token token =
    not (str_eq (trim_prefix token "bot") "") && not (contains_any token "/?# \t\r\n")

-- A request to the bot's API: sendMessage with a chat and a text, or sendDocument with a chat, a
-- caption, a file's name and its bytes.
pub data Call : Type 0 where
  send_message : String → String → Call
  send_document : String → String → String → Bytes → Call

pub record Reply : Type 0 where
  pub accepted : Bool
  pub result : Bytes
  pub error_code : ℤ

-- The libraries and the provider: the bytes of a text, how a request is made (json.Marshal, the
-- multipart writer and http.NewRequest), client.Do, json.Unmarshal of the reply and of its result,
-- and how numbers are printed.
pub record BaleApi : Type 0 where
  pub to_bytes : String → Bytes
  pub build : Call → Result (Unit {0})
  pub perform : Call → Result Response
  pub decode : Bytes → Option Reply
  pub decode_id : Bytes → Option ℤ
  pub print : ℕ → String
  pub print_int : ℤ → String

-- text += "\n"
abbrev pub with_newline : String → String
with_newline text = if str_eq text "" then "" else append text "\n"

abbrev pub concrete_bale : Message → Result BaleMessage
concrete_bale (bale m) = ok m
concrete_bale _ = err (unclassified "unexpected message type")

-- At most one attachment, and that with data.
unfoldable pub check_attachments : List Attachment → Result (Unit {0})
check_attachments [] = ok tt
check_attachments (a ∷ []) = guard (not (is_empty a.content)) (failure "bale: attachment is empty")
check_attachments (a ∷ b ∷ rest) = err (failure "bale: at most one attachment is supported")

abbrev pub found_id : Option ℤ → Bool
found_id none = false
found_id (some id) = not (eqb_ℤ id (pos 0))

abbrev pub or_invalid : Option Reply → Result Reply
or_invalid none = err (failure "bale: invalid response")
or_invalid (some r) = ok r

module _ (api : BaleApi) where
  -- The request for a message.
  unfoldable pub call_for : BaleMessage → List Attachment → Call
  call_for m [] =
      let text = with_newline m.text in
      if leb (len text) text_limit
      then send_message m.chat_id text
      else send_document m.chat_id "" "message.txt" (api.to_bytes text)
  call_for m (a ∷ rest) = send_document m.chat_id m.text a.name a.content

  -- sendMessage or sendDocument, and do.
  unfoldable pub perform_call : Call → Result (Unit {0})
  unfolding response
  perform_call call = do
    api.build call
    body ← response api.print "bale" 0 (api.perform call)
    reply ← or_invalid (api.decode body)
    guard reply.accepted (failure (append "bale: API error " (api.print_int reply.error_code)))
    guard (found_id (api.decode_id reply.result)) (failure "bale: response has no message ID")

  unfoldable pub send_checked : Message → Result (Unit {0})
  unfolding check_attachments call_for perform_call
  send_checked message = do
    m ← concrete_bale message
    guard (not (str_eq m.chat_id "")) (unclassified "chat_id can not be empty")
    check_attachments m.attachments
    perform_call (call_for m m.attachments)

  -- (*sender).Send
  unfoldable pub send : Message → Option ProviderError
  unfolding send_checked safe_error
  send message = safe_error "bale" (error_of (send_checked message))
