-- ===== src/Provider/Chat.antt =====
-- What a call of the Bale or the Mattermost sender without an error means.
use kaftar.Prelude.{
  String, ◌≡◌, ◌≤◌, ◌<◌, sym, refl, Option, none, some, List, [], ◌∷◌, Bool, true, false, ◌&&◌,
  arith, str_eq, leb, Bool-cases, inl, inr,
}
use Prim.Native.String.{◌++◌ as append, len}
use kaftar.Entity.Message.{
  Bytes, Message, BaleMessage, MattermostMessage, Attachment, bale, mattermost, sms, email, http,
  is_empty, validate_mattermost,
}
use kaftar.Provider.Client.{ok, response, ◌>>=◌}
use kaftar.Provider.Inversion.{bind-ok, bind_unit, guard-ok, guard-true, no_error, unsafe_none}
use kaftar.Provider.Bale
use kaftar.Provider.Bale.{BaleApi, Call, Reply, send_message, send_document, with_newline, found_id}
use kaftar.Provider.Mattermost
use kaftar.Provider.Mattermost.{
  MattermostApi, PostRequest, Upload, full_text, first_file, post, upload, file_of, send_file,
  send_valid, concrete_mattermost, found_post,
}

-- The request has the chat of the message and the whole of its text and its attachment.
pub data Carries (api : BaleApi) (m : BaleMessage) : Call → Type 0 where
  as_text :
      m.attachments ≡ []
      → leb (len (with_newline m.text)) Bale.text_limit ≡ true
      → Carries api m (send_message m.chat_id (with_newline m.text))
  as_document :
      m.attachments ≡ []
      → leb (len (with_newline m.text)) Bale.text_limit ≡ false
      → Carries api m
          (send_document m.chat_id "" "message.txt" (api.to_bytes (with_newline m.text)))
  as_attachment :
      (a : Attachment)
      → m.attachments ≡ a ∷ []
      → is_empty a.content ≡ false
      → Carries api m (send_document m.chat_id m.text a.name a.content)

-- The provider accepted the request and named the message it made.
pub record IsBaleAccepted (api : BaleApi) (call : Call) : Type 0 where
  pub body : Bytes
  pub reply : Reply
  pub answered : response api.print "bale" 0 (api.perform call) ≡ ok body
  pub decoded : api.decode body ≡ some reply
  pub accepted : reply.accepted ≡ true
  pub identified : found_id (api.decode_id reply.result) ≡ true

-- The provider made the post and named it.
pub record IsPosted (api : MattermostApi) (request : PostRequest) : Type 0 where
  pub body : Bytes
  pub answered : response api.print "mattermost post" 201 (api.perform_post request) ≡ ok body
  pub identified : found_post (api.decode_post body) ≡ true

-- The provider took the file and named it.
pub record IsUploaded (api : MattermostApi) (file : Upload) (id : String) : Type 0 where
  pub body : Bytes
  pub ids : List String
  pub answered : response api.print "mattermost upload" 201 (api.perform_upload file) ≡ ok body
  pub decoded : api.decode_upload body ≡ ok ids
  pub first : first_file ids ≡ ok id

-- The text that stands for a title and a text: both on lines of their own, or the one there is.
pub data IsWhole (title text : String) : String → Type 0 where
  both :
      str_eq title "" ≡ false
      → str_eq text "" ≡ false
      → IsWhole title text (append title (append "\n" text))
  title_alone : str_eq text "" ≡ true → IsWhole title text title
  text_alone : str_eq title "" ≡ true → IsWhole title text text

-- What the provider took of the message: its text as a post of a length of at most 500, or its text or its
-- one attachment as a file, under whose ID the title was posted.
pub data IsDelivered (api : MattermostApi) (m : MattermostMessage) : Type 0 where
  as_post :
      (whole : String)
      → IsWhole m.title m.text whole
      → m.attachments ≡ []
      → len whole ≤ 500
      → IsPosted api (record { channel_id = m.channel_id; message = whole; file_ids = [] })
      → IsDelivered api m
  as_text_file :
      (whole id : String)
      → IsWhole m.title m.text whole
      → m.attachments ≡ []
      → 500 < len whole
      → IsUploaded api
          (record {
            channel_id = m.channel_id;
            filename = "message.txt";
            content = api.to_bytes whole;
          })
          id
      → IsPosted api (record { channel_id = m.channel_id; message = m.title; file_ids = id ∷ [] })
      → IsDelivered api m
  as_attachment :
      (a : Attachment) (id : String)
      → m.attachments ≡ a ∷ []
      → is_empty a.content ≡ false
      → IsUploaded api
          (record { channel_id = m.channel_id; filename = a.name; content = a.content })
          id
      → IsPosted api (record { channel_id = m.channel_id; message = m.title; file_ids = id ∷ [] })
      → IsDelivered api m

full_text-IsWhole : (m : MattermostMessage) → IsWhole m.title m.text (full_text m)
unfolding full_text
full_text-IsWhole m = elim (Bool-cases (str_eq m.title "")) [
  | inl t ↦ rw (t) (text_alone t)
  | inr t ↦ elim (Bool-cases (str_eq m.text "")) [
    | inl e ↦ rw (t, e) (title_alone e)
    | inr e ↦ rw (t, e) (both t e)
  ]
]

module _ (api : MattermostApi) where
  posted : (request : PostRequest) → post api request ≡ ok tt → IsPosted api request
  unfolding post
  posted request h =
      let (b, h1) = bind_unit (api.build_post request) _ h in
      let (body, r, h2) =
        bind-ok (response api.print "mattermost post" 201 (api.perform_post request)) _ h1 in
      record {
        body = body;
        answered = r;
        identified = guard-true (found_post (api.decode_post body)) _ h2;
      }

  uploaded : (file : Upload) (id : String) → upload api file ≡ ok id → IsUploaded api file id
  unfolding upload
  uploaded file id h =
      let (b, h1) = bind_unit (api.build_upload file) _ h in
      let (body, r, h2) =
        bind-ok (response api.print "mattermost upload" 201 (api.perform_upload file)) _ h1 in
      let (ids, d, h3) = bind-ok (api.decode_upload body) _ h2 in
      record { body = body; ids = ids; answered = r; decoded = d; first = h3 }

  filed :
      (m : MattermostMessage) (l : List Attachment)
      → l ≡ m.attachments
      → Mattermost.at_most_one api l ≡ true
      → (is_empty l ≡ true → 500 < len (full_text m))
      → (file_of api m l >>= λ file. upload api file >>= λ id.
          post api (record { channel_id = m.channel_id; message = m.title; file_ids = id ∷ [] }))
        ≡ ok tt
      → IsDelivered api m
  unfolding file_of
  filed m [] e one long h =
      let (id, u, h1) = bind-ok (upload api _) _ h in
      as_text_file (full_text m) id (full_text-IsWhole m) (sym e) (long refl) (uploaded _ id u)
        (posted _ h1)
  filed m (a ∷ []) e one long h = elim (Bool-cases (is_empty a.content)) [
    | inl c ↦ absurd (ground (arith, rw (c) at h))
    | inr c ↦
        let (id, u, h1) = bind-ok (upload api _) _ (rw (c) at h) in
        as_attachment a id (sym e) c (uploaded _ id u) (posted _ h1)
  ]
  filed m (a ∷ b ∷ rest) e one long h = absurd (ground arith)

  no_attachment : {A : Type 0} (l : List A) → is_empty l ≡ true → l ≡ []
  no_attachment [] h = refl
  no_attachment (a ∷ rest) h = absurd (ground arith)

  delivered :
      (m : MattermostMessage)
      → Mattermost.at_most_one api m.attachments ≡ true
      → send_valid api m ≡ ok tt
      → IsDelivered api m
  unfolding send_valid send_file
  delivered m one h = elim (Bool-cases (is_empty m.attachments)) [
    | inr e ↦ filed m m.attachments refl one (λ k. absurd (ground arith)) (rw (e) at h)
    | inl e ↦ elim (Bool-cases (leb (len (full_text m)) Mattermost.text_limit)) [
      | inr t ↦ filed m m.attachments refl one (λ k. ground arith) (rw (e, t) at h)
      | inl t ↦
          as_post (full_text m) (full_text-IsWhole m) (no_attachment m.attachments e) (ground arith)
            (posted _ (rw (e, t) at h))
    ]
  ]

  mattermost_only :
      (message : Message) (m : MattermostMessage)
      → concrete_mattermost message ≡ ok m
      → message ≡ mattermost m
  mattermost_only (mattermost n) m h = grind (arith, h)
  mattermost_only (sms n) m h = absurd (ground arith)
  mattermost_only (email n) m h = absurd (ground arith)
  mattermost_only (bale n) m h = absurd (ground arith)
  mattermost_only (http n) m h = absurd (ground arith)

  validated : (o : Option String) → Mattermost.of_text o ≡ ok tt → o ≡ none
  validated none h = refl
  validated (some e) h = absurd (ground arith)

  -- If Mattermost's Send reports no error, the message is a valid Mattermost message, and either
  -- the provider posted its title and its text, with a line break between them where both are there,
  -- in a length of at most 500, or it took a file, the one attachment of the message or, where these
  -- are longer, their text, and posted the title with the ID that it gave the file.
  pub mattermost_send_lem :
      (message : Message)
      → Mattermost.send api message ≡ none
      → (m : MattermostMessage) × (message ≡ mattermost m)
        × (validate_mattermost m ≡ none)
        × IsDelivered api m
  unfolding Mattermost.send Mattermost.send_checked
  mattermost_send_lem message h =
      let done = no_error (Mattermost.send_checked api message) (unsafe_none "mattermost" _ h) in
      let (m, c, h1) = bind-ok (concrete_mattermost message) _ done in
      let (v, h2) = bind_unit (Mattermost.of_text (validate_mattermost m)) _ h1 in
      let (one, h3) = guard-ok (Mattermost.at_most_one api m.attachments) _ _ h2 in
      (m, mattermost_only message m c, validated (validate_mattermost m) v, delivered m one h3)

  and_false : (b : Bool) → (b && false) ≡ false
  and_false true = refl
  and_false false = refl

  -- Two Mattermost messages with an attachment and a title, which differ in the text only, are
  -- sent alike: the text of such a message reaches nobody.
  pub send_text :
      (m : MattermostMessage) (a : Attachment) (text : String)
      → str_eq m.title "" ≡ false
      → m.attachments ≡ a ∷ []
      → Mattermost.send api (mattermost (record m { text = text }))
        ≡ Mattermost.send api (mattermost m)
  unfolding Mattermost.send Mattermost.send_checked send_valid send_file file_of validate_mattermost
  send_text m a text t e = rw (t, e, and_false (str_eq text ""), and_false (str_eq m.text "")) refl
