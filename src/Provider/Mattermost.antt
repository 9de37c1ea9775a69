-- ===== src/Provider/Mattermost.antt =====
-- server/internal/service/mattermost/sender.go. What Go's libraries and the provider answer is given.
use kaftar.Prelude.{
  ℕ, String, Option, none, some, List, [], ◌∷◌, Bool, true, false, not, ◌&&◌, ◌||◌, if◌then◌else◌,
  str_eq, leb,
}
use Prim.Native.String.{◌++◌ as append, len}
use kaftar.Entity.Message.{
  Bytes, Message, MattermostMessage, Attachment, mattermost, is_empty, validate_mattermost,
}
use kaftar.Provider.Client.{
  ProviderError, failure, unclassified, safe_error, Result, ok, err, ◌>>=◌, ◌>>◌, guard, error_of,
  Response, response,
}

abbrev pub text_limit : ℕ
text_limit = 500

-- What New reads of a parsed URL.
pub record BaseUrl : Type 0 where
  pub scheme : String
  pub hostname : String
  pub user : Bool
  pub raw_query : String
  pub fragment : String

unfoldable pub valid_base : Option BaseUrl → Bool
valid_base none = false
valid_base (some u) =
    not (str_eq u.hostname "")
    && not u.user
    && str_eq u.raw_query ""
    && str_eq u.fragment ""
    && (str_eq u.scheme "https" || str_eq u.scheme "http")

-- New, for the URL, the token and what url.Parse finds.
unfoldable pub new : String → String → Option BaseUrl → Option ProviderError
unfolding valid_base
new url pat parsed =
    if str_eq url ""
    then some (unclassified "mattermost URL is required")
    else if str_eq pat ""
    then some (unclassified "mattermost PAT (Personal Access Token) is required")
    else if not (valid_base parsed)
    then some (unclassified "invalid Mattermost URL")
    else none

-- postRequest
pub record PostRequest : Type 0 where
  pub channel_id : String
  pub message : String
  pub file_ids : List String

pub record Upload : Type 0 where
  pub channel_id : String
  pub filename : String
  pub content : Bytes

-- The libraries and the provider: the bytes of a text, how the requests are made, client.Do for
-- each, json.Unmarshal for the ID of a post and the IDs of uploaded files, and how numbers print.
pub record MattermostApi : Type 0 where
  pub to_bytes : String → Bytes
  pub build_post : PostRequest → Result (Unit {0})
  pub perform_post : PostRequest → Result Response
  pub decode_post : Bytes → Option String
  pub build_upload : Upload → Result (Unit {0})
  pub perform_upload : Upload → Result Response
  pub decode_upload : Bytes → Result (List String)
  pub print : ℕ → String

abbrev pub found_post : Option String → Bool
found_post none = false
found_post (some id) = not (str_eq id "")

-- typeCheck
abbrev pub concrete_mattermost : Message → Result MattermostMessage
concrete_mattermost (mattermost m) = ok m
concrete_mattermost _ = err (unclassified "unexpected message type")

abbrev pub of_text : Option String → Result (Unit {0})
of_text none = ok tt
of_text (some text) = err (unclassified text)

-- The title and the text as one text.
unfoldable pub full_text : MattermostMessage → String
full_text m =
    if not (str_eq m.title "") && not (str_eq m.text "")
    then append m.title (append "\n" m.text)
    else if not (str_eq m.title "")
    then m.title
    else m.text

-- result.FileInfos[0].ID
unfoldable pub first_file : List String → Result String
first_file [] = err (unclassified "mattermost file upload returned no file ID")
first_file (id ∷ ids) =
    if str_eq id "" then err (unclassified "mattermost file upload returned no file ID") else ok id

module _ (api : MattermostApi) where
  unfoldable pub post : PostRequest → Result (Unit {0})
  unfolding response
  post request = do
    api.build_post request
    body ← response api.print "mattermost post" 201 (api.perform_post request)
    guard (found_post (api.decode_post body)) (failure "mattermost: invalid post response")

  unfoldable pub upload : Upload → Result String
  unfolding response first_file
  upload file = do
    api.build_upload file
    body ← response api.print "mattermost upload" 201 (api.perform_upload file)
    ids ← api.decode_upload body
    first_file ids

  -- The file that is uploaded with a message.
  unfoldable pub file_of : MattermostMessage → List Attachment → Result Upload
  unfolding full_text
  file_of m [] = ok (record {
    channel_id = m.channel_id;
    filename = "message.txt";
    content = api.to_bytes (full_text m);
  })
  file_of m (a ∷ rest) =
      if is_empty a.content
      then err (unclassified "attachment must have data")
      else ok (record { channel_id = m.channel_id; filename = a.name; content = a.content })

  unfoldable pub send_file : MattermostMessage → Result (Unit {0})
  unfolding file_of upload post
  send_file m = do
    file ← file_of m m.attachments
    id ← upload file
    post (record { channel_id = m.channel_id; message = m.title; file_ids = id ∷ [] })

  abbrev pub at_most_one : List Attachment → Bool
  at_most_one (a ∷ b ∷ rest) = false
  at_most_one _ = true

  unfoldable pub send_valid : MattermostMessage → Result (Unit {0})
  unfolding send_file full_text post
  send_valid m =
      if is_empty m.attachments && leb (len (full_text m)) text_limit
      then post (record { channel_id = m.channel_id; message = full_text m; file_ids = [] })
      else send_file m

  unfoldable pub send_checked : Message → Result (Unit {0})
  unfolding validate_mattermost send_valid
  send_checked message = do
    m ← concrete_mattermost message
    of_text (validate_mattermost m)
    guard (at_most_one m.attachments) (failure "mattermost: at most one attachment is supported")
    send_valid m

  -- (*sender).Send
  unfoldable pub send : Message → Option ProviderError
  unfolding send_checked safe_error
  send message = safe_error "mattermost" (error_of (send_checked message))
