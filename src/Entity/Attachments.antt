-- ===== src/Entity/Attachments.antt =====
-- MarshalJSON and UnmarshalJSON of an Attachment, server/internal/entity/email_message.go. What
-- encoding/json does with the auxiliary struct, and encoding/base64, are given.
use kaftar.Prelude.{
  String, ◌≡◌, refl, Option, none, some, [], arith, str_eq, str_eq_iff, ℤ, pos, negsuc, zero, suc,
  eqb_ℤ, if◌then◌else◌, Bool-cases, inl, inr,
}
use kaftar.Entity.Message.{Bytes, Attachment}

-- The auxiliary struct: its Data hides the attachment's.
pub record Auxiliary : Type 0 where
  pub encoded : String
  pub name : String
  pub content_type : String
  pub size : ℤ

-- What a JSON object has of the fields; a missing one leaves the struct's as it is.
pub record Fields : Type 0 where
  pub encoded : Option String
  pub name : Option String
  pub content_type : Option String
  pub size : Option ℤ

pub record Codec : Type 0 where
  pub to_json : Auxiliary → Bytes
  pub of_json : Bytes → Option Fields
  pub encode_base64 : Bytes → String
  pub decode_base64 : String → Option Bytes

abbrev pub unless_empty : String → Option String
unless_empty s = if str_eq s "" then none else some s

abbrev pub unless_zero : ℤ → Option ℤ
unless_zero n = if eqb_ℤ n (pos 0) then none else some n

-- The tags of the struct: all but the name are omitted when they are empty.
abbrev pub written : Auxiliary → Fields
written x = record {
  encoded = unless_empty x.encoded;
  name = some x.name;
  content_type = unless_empty x.content_type;
  size = unless_zero x.size;
}

abbrev pub or_text : Option String → String → String
or_text none old = old
or_text (some new) old = new

abbrev pub or_size : Option ℤ → ℤ → ℤ
or_size none old = old
or_size (some new) old = new

abbrev pub auxiliary : Codec → Attachment → Auxiliary
auxiliary codec a = record {
  encoded = codec.encode_base64 a.content;
  name = a.name;
  content_type = a.content_type;
  size = a.size;
}

module _ (codec : Codec) where
  -- (Attachment).MarshalJSON
  unfoldable pub marshal_attachment : Attachment → Bytes
  marshal_attachment a = codec.to_json (auxiliary codec a)

  abbrev pub with_fields : Fields → Attachment → Attachment
  with_fields f a = record a {
    name = or_text f.name a.name;
    content_type = or_text f.content_type a.content_type;
    size = or_size f.size a.size;
  }

  abbrev pub with_bytes : Attachment → Option Bytes → Option Attachment
  with_bytes a none = none
  with_bytes a (some b) = some (record a { content = b })

  unfoldable pub decode_fields : Fields → Attachment → Option Attachment
  decode_fields f a =
      let text = or_text f.encoded "" in
      let set = with_fields f a in
      if str_eq text "" then some set else with_bytes set (codec.decode_base64 text)

  -- (*Attachment).UnmarshalJSON, on an attachment; none is an error.
  unfoldable pub unmarshal_attachment : Bytes → Attachment → Option Attachment
  unfolding decode_fields
  unmarshal_attachment bytes a = elim (codec.of_json bytes) [
    | none ↦ none
    | some f ↦ decode_fields f a
  ]

-- What the code relies on, of an attachment: what json.Marshal writes json.Unmarshal reads, and base64
-- decodes to what was encoded, the empty text being that of no bytes.
pub record ReadsBack (codec : Codec) (a : Attachment) : Type 0 where
  pub json : codec.of_json (codec.to_json (auxiliary codec a)) ≡ some (written (auxiliary codec a))
  pub base64 : codec.decode_base64 (codec.encode_base64 a.content) ≡ some a.content
  pub no_bytes : codec.encode_base64 a.content ≡ "" → a.content ≡ []

-- Attachment{}
abbrev pub no_attachment : Attachment
no_attachment = record { name = ""; content_type = ""; size = pos 0; content = [] }

text_kept : (s : String) → or_text (unless_empty s) "" ≡ s
text_kept s = ground (arith, str_eq_iff s "")

size_kept : (n : ℤ) → or_size (unless_zero n) (pos 0) ≡ n
size_kept (pos zero) = refl
size_kept (pos (suc n)) = ground arith
size_kept (negsuc n) = ground arith

decoded :
    (codec : Codec) (a : Attachment)
    → ReadsBack codec a
    → decode_fields codec (written (auxiliary codec a)) no_attachment ≡ some a
unfolding decode_fields
decoded codec a laws =
    rw (text_kept (codec.encode_base64 a.content), text_kept a.content_type, size_kept a.size)
      (elim (Bool-cases (str_eq (codec.encode_base64 a.content) "")) [
        | inl e ↦ rw (e, laws.no_bytes ((str_eq_iff (codec.encode_base64 a.content) "").0 e)) refl
        | inr e ↦ rw (e, laws.base64) refl
      ])

-- If the JSON and base64 packages read what they write of it, an attachment that is marshalled and
-- unmarshalled into an empty one is the same, its bytes and its empty fields included.
pub unmarshal_attachment-marshal_attachment :
    (codec : Codec) (a : Attachment)
    → ReadsBack codec a
    → unmarshal_attachment codec (marshal_attachment codec a) no_attachment ≡ some a
unfolding unmarshal_attachment marshal_attachment
unmarshal_attachment-marshal_attachment codec a laws =
    rw (laws.json, unmarshal_attachment) (decoded codec a laws)
