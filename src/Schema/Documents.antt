-- ===== src/Schema/Documents.antt =====
-- `normalizeDocumentsSchema` and `denormalizeDocumentsSchema` of src/common/identity/utils.js: the
-- documents in the data of an attribute are moved out to a list and replaced by references, and
-- put back. The depth left, `maxDepth + 1`, is the fuel; at 0 the code returns the value as it is.
pub mod RoundTrip
use identity_wallet.Common.{
  ℕ, zero, suc, Bool, true, false, not, ◌&&◌, ◌||◌, Option, none, some, List, [], ◌∷◌, ◌++◌, arith,
  if◌then◌else◌, length, filter, Result, ok, throw, type_error, ◌>>=◌, ◌==◌, option_eq, nat_eq,
}
use identity_wallet.Schema.Text.{Text, codes, text_eq, decimal}
use identity_wallet.Schema.Value.{
  Value, Items, Fields, undefined, null, num, str, arr, obj, nil, cons, end, get, put, drop_field,
  has_field, truthy, strict_eq, typeof_object, indexed, spread, count_items, snoc, to_text,
}
use identity_wallet.Schema.Types.{
  Schema, Properties, PropertyList, Item, schema, no_properties, properties, property, no_item,
  item,
}
use identity_wallet.Schema.Reference.{
  match_reference, group_number, id_reference, new_name, new_reference,
}

-- The list of documents. Each is an object, with a number under `id` once it is stored, or with
-- the name that normalizing gives it under `#id`.
abbrev pub Documents : Type 0
Documents = List Fields

abbrev pub id_key : Text
id_key = codes "id"

abbrev pub name_key : Text
name_key = codes "#id"

-- `doc.id === +id || doc['#id'] === id`
unfoldable pub refers : Text → Fields → Bool
unfolding group_number
refers id doc =
    (elim (group_number id) [ none ↦ false | some n ↦ strict_eq (get id_key doc) (num n) ])
    || strict_eq (get name_key doc) (str id)

-- The branch `typeSchema.format === 'file'` of denormalizing.
unfoldable pub take_document : Text → Documents → Value × Documents
unfolding refers
take_document id docs =
    let rest = filter (λ d. not (refers id d)) docs in
    elim (filter (refers id) docs) [
      | [] ↦ (null, rest)
      | found ∷ more ↦ (obj (drop_field name_key found), rest)
    ]

unfoldable pub denormalize_file : Value → Documents → Value × Documents
unfolding take_document match_reference
denormalize_file (str (c ∷ s)) docs = elim (match_reference (c ∷ s)) [
  | none ↦ (null, docs)
  | some id ↦ take_document id docs
]
denormalize_file value docs = (value, docs)

-- The branch `typeSchema.format === 'file'` of normalizing. An empty object or array stays.
unfoldable pub put_document : Fields → Documents → Value × Documents
put_document o docs =
    let id = get id_key o in
    if truthy id
    then (
      str (id_reference (to_text id)),
      filter (λ d. not (strict_eq (get id_key d) id)) docs ++ o ∷ [],
    )
    else (
      str (new_reference (length docs)),
      docs ++ put name_key (str (new_name (length docs))) o ∷ [],
    )

abbrev pub is_end : Fields → Bool
is_end end = true
is_end _ = false

-- An array goes into the list as it is while it has no `id`; its spread is an object.
unfoldable pub normalize_file : Value → Documents → Value × Documents
unfolding put_document spread
normalize_file value docs =
    if typeof_object value && not (is_end (spread value))
    then put_document (spread value) docs
    else (value, docs)

-- `value.hasOwnProperty(key)` and `value[key]` where `typeof value === 'object'`.
unfoldable pub own : Value → Text → Result (Option Value)
own (obj o) k = ok (if has_field k o then some (get k o) else none)
own (arr xs) k = ok (
    if k == codes "length"
    then some (num (count_items xs))
    else if has_field k (indexed 0 xs)
    then some (get k (indexed 0 xs))
    else none)
own _ k = throw type_error

-- A call of the function itself, on the schema of a property or of the items.
abbrev pub Walk : Type 0
Walk = Item → Value → Documents → Result (Value × Documents)

-- One step of the loop over the properties: a property that the value lacks is passed over.
unfoldable pub walk_child :
    Walk → Text → Schema → Option Value → Fields → Documents → Result (Fields × Documents)
walk_child rec key s none acc docs = ok (acc, docs)
walk_child rec key s (some v) acc docs = do
  (v', docs') ← rec (item s) v docs
  ok (put key v' acc, docs')

-- `Object.keys(properties).reduce(…, { value: {}, documents })`
unfoldable pub walk_properties :
    Walk → PropertyList → Value → Fields → Documents → Result (Value × Documents)
unfolding own walk_child
walk_properties rec PropertyList.end value acc docs = ok (obj acc, docs)
walk_properties rec (property key s more) value acc docs = do
  child ← own value key
  (acc', docs') ← walk_child rec key s child acc docs
  walk_properties rec more value acc' docs'

-- `value.reduce(…, { value: [], documents })`
unfoldable pub walk_items : Walk → Item → Items → Items → Documents → Result (Value × Documents)
walk_items rec it nil acc docs = ok (arr acc, docs)
walk_items rec it (cons x xs) acc docs = do
  (x', docs') ← rec it x docs
  walk_items rec it xs (snoc acc x') docs'

abbrev pub as_items : Value → Option Items
as_items (arr xs) = some xs
as_items _ = none

-- What both functions do at a node, but for the branch on files.
unfoldable pub walk_node : (Value → Documents → Value × Documents) → Walk → Walk
unfolding walk_properties walk_items
walk_node file rec no_item value docs = throw type_error
walk_node file rec (item (schema kw props it)) value docs =
    if kw.format == some (codes "file")
    then ok (file value docs)
    else if kw.type == some (codes "object") && typeof_object value
    then elim props [
      | no_properties ↦ ok (value, docs)
      | properties ps ↦ walk_properties rec ps value end docs
    ]
    else if kw.type == some (codes "array")
    then elim (as_items value) [ none ↦ ok (value, docs) | some xs ↦ walk_items rec it xs nil docs ]
    else ok (value, docs)

unfoldable pub walk : (Value → Documents → Value × Documents) → ℕ → Walk
unfolding walk_node
walk file zero it value docs = ok (value, docs)
walk file (suc n) it value docs = walk_node file (walk file n) it value docs

-- `maxDepth = 10`
abbrev pub default_depth : ℕ
default_depth = 11

unfoldable pub denormalize_documents_schema :
    Schema → Value → Documents → Result (Value × Documents)
unfolding walk denormalize_file
denormalize_documents_schema s = walk denormalize_file default_depth (item s)

unfoldable pub normalize_documents_schema : Schema → Value → Documents → Result (Value × Documents)
unfolding walk normalize_file
normalize_documents_schema s = walk normalize_file default_depth (item s)
