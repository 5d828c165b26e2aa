-- ===== src/Login/Attributes.antt =====
-- Attributes as `reqAttributes` sends them and as `reqSignup` hands them on.
use identity_wallet.Common.{List, [], ◌∷◌, if◌then◌else◌, Result, ok, throw, type_error, option_eq}
use identity_wallet.Schema.Text.{Text, codes, text_eq}
use identity_wallet.Schema.Value.{Value, Fields, undefined, null, obj, get, put, truthy}
use identity_wallet.Schema.Documents.{denormalize_documents_schema, normalize_documents_schema}
use identity_wallet.Login.State.{
  SignupAttribute, SentAttribute, FetchedAttribute, RpAttribute, Services,
}

abbrev pub buffer : Text
buffer = codes "buffer"

-- `doc.buffer = f(doc.buffer)` of every document
unfoldable pub convert_buffers : (Value → Result Value) → List Fields → Result (List Fields)
convert_buffers f [] = ok []
convert_buffers f (d ∷ ds) = elim (f (get buffer d)) [
  | throw x ↦ throw x
  | ok v ↦ elim (convert_buffers f ds) [ throw x ↦ throw x | ok rest ↦ ok (put buffer v d ∷ rest) ]
]

-- `attr.id || attr.attribute || attr`
abbrev pub requested_id : Value → Value
requested_id (obj o) =
    let by_attribute =
      if truthy (get (codes "attribute") o) then get (codes "attribute") o else obj o in
    if truthy (get (codes "id") o) then get (codes "id") o else by_attribute
requested_id v = v

-- A field of `undefined` or `null` cannot be read.
unfoldable pub requested_ids : List Value → Result (List Value)
requested_ids [] = ok []
requested_ids (undefined ∷ vs) = throw type_error
requested_ids (null ∷ vs) = throw type_error
requested_ids (v ∷ vs) = elim (requested_ids vs) [
  | throw x ↦ throw x
  | ok ids ↦ ok (requested_id v ∷ ids)
]

module _ {D I S : Type 0} (services : Services D I S) where
  -- What `reqAttributes` makes of one attribute.
  unfoldable pub attribute_to_send : FetchedAttribute → Result SentAttribute
  unfolding convert_buffers
  attribute_to_send a = elim (convert_buffers services.to_base64 a.documents) [
    | throw x ↦ throw x
    | ok docs ↦ elim (denormalize_documents_schema a.schema a.value docs) [
      | throw x ↦ throw x
      | ok (value, rest) ↦
          ok (record { url = a.url; name = a.name; value = value; schema = a.schema; id = a.id })
    ]
  ]

  unfoldable pub attributes_to_send : List FetchedAttribute → Result (List SentAttribute)
  unfolding attribute_to_send
  attributes_to_send [] = ok []
  attributes_to_send (a ∷ rest) = elim (attribute_to_send a) [
    | throw x ↦ throw x
    | ok s ↦ elim (attributes_to_send rest) [ throw x ↦ throw x | ok ss ↦ ok (s ∷ ss) ]
  ]

  -- What `reqSignup` makes of one attribute.
  unfoldable pub attribute_to_sign_up : SignupAttribute → Result RpAttribute
  unfolding convert_buffers
  attribute_to_sign_up a = elim (normalize_documents_schema a.schema a.value []) [
    | throw x ↦ throw x
    | ok (value, docs) ↦ elim (convert_buffers services.from_base64 docs) [
      | throw x ↦ throw x
      | ok ds ↦ ok (record { id = a.url; schema = a.schema; value = value; documents = ds })
    ]
  ]

  unfoldable pub attributes_to_sign_up : List SignupAttribute → Result (List RpAttribute)
  unfolding attribute_to_sign_up
  attributes_to_sign_up [] = ok []
  attributes_to_sign_up (a ∷ rest) = elim (attribute_to_sign_up a) [
    | throw x ↦ throw x
    | ok s ↦ elim (attributes_to_sign_up rest) [ throw x ↦ throw x | ok ss ↦ ok (s ∷ ss) ]
  ]
