-- ===== src/Identity/Selectors.antt =====
-- The selectors of src/common/identity/selectors.js. The clock, the flag `forceUpdateAttributes` of
-- the configuration and the validator `identityAttributes.validate` (Ajv) are arguments.
pub mod Grouping
use identity_wallet.Common.{
  ℕ, Bool, true, false, not, ◌&&◌, ◌||◌, Option, none, some, List, [], ◌∷◌, ◌++◌, map,
  if◌then◌else◌, or_else, is_some, leb, filter, find, Result, ok, throw, type_error, ◌>>=◌, ◌==◌,
  contains, nat_eq, option_eq,
}
use identity_wallet.Common.Dict.{Dict, lookup, insert}
use identity_wallet.Common.Collection.{keep, listed}
use identity_wallet.Schema.Text.{Text, codes, text_eq}
use identity_wallet.Schema.Value.{Value, get}
use identity_wallet.Schema.Types.{Schema}
use identity_wallet.Identity.State.{
  State, Repository, IdAttributeType, UiSchema, Document, IdAttribute,
}

unfoldable pub select_repositories : State → List (Option Repository)
select_repositories s = listed s.repositories

-- A forced update reads no property, and so keeps what is missing.
abbrev pub expired : {V : Type 0} → Bool → ℕ → (V → ℕ) → List (Option V) → Result (List (Option V))
expired true now expires xs = ok xs
expired false now expires xs = do found ← keep (λ x. leb (expires x) now) xs; ok (map some found)

unfoldable pub select_expired_repositories : Bool → ℕ → State → Result (List (Option Repository))
unfolding select_repositories
select_expired_repositories force now s = expired force now (λ r. r.expires) (select_repositories s)

-- `.filter(t => t && t.content)`
unfoldable pub with_content : List (Option IdAttributeType) → List IdAttributeType
with_content [] = []
with_content (none ∷ ts) = with_content ts
with_content (some t ∷ ts) =
    let rest = with_content ts in if is_some t.content then t ∷ rest else rest

unfoldable pub select_id_attribute_types : State → List IdAttributeType
unfolding with_content
select_id_attribute_types s = with_content (listed s.id_attribute_types)

unfoldable pub select_expired_id_attribute_types : Bool → ℕ → State → List IdAttributeType
unfolding select_id_attribute_types
select_expired_id_attribute_types force now s =
    filter (λ t. force || leb t.expires now) (select_id_attribute_types s)

unfoldable pub select_id_attribute_type_by_url : State → Text → Option IdAttributeType
unfolding select_id_attribute_types
select_id_attribute_type_by_url s url = find (λ t. t.url == url) (select_id_attribute_types s)

unfoldable pub select_ui_schemas : State → List (Option UiSchema)
select_ui_schemas s = listed s.ui_schemas

unfoldable pub select_expired_ui_schemas : Bool → ℕ → State → Result (List (Option UiSchema))
unfolding select_ui_schemas
select_expired_ui_schemas force now s = expired force now (λ u. u.expires) (select_ui_schemas s)

unfoldable pub select_documents : State → List (Option Document)
select_documents s = listed s.documents

unfoldable pub select_id_attributes : State → ℕ → Result (List IdAttribute)
select_id_attributes s wallet_id = keep (λ a. a.wallet_id == some wallet_id) (listed s.attributes)

-- `attributeIds !== null && !attributeIds.includes(id)`, negated
abbrev pub wanted : Option (List ℕ) → Option ℕ → Bool
wanted none id = true
wanted (some ids) none = false
wanted (some ids) (some id) = contains ids id

-- The documents of each attribute, in order.
unfoldable pub group_documents :
    Option (List ℕ)
    → Dict (Option ℕ) (List Document)
    → List (Option Document)
    → Result (Dict (Option ℕ) (List Document))
group_documents ids acc [] = ok acc
group_documents ids acc (none ∷ ds) = throw type_error
group_documents ids acc (some d ∷ ds) =
    let k = d.attribute_id in
    group_documents ids
      (if wanted ids k then insert k (or_else (lookup k acc) [] ++ d ∷ []) acc else acc) ds

unfoldable pub select_documents_by_attribute_ids :
    State → Option (List ℕ) → Result (Dict (Option ℕ) (List Document))
unfolding select_documents group_documents
select_documents_by_attribute_ids s ids = group_documents ids [] (select_documents s)

-- `.find(schema => schema.repositoryId === repositoryId && typeId === schema.attributeTypeId)`
unfoldable pub find_ui_schema : List (Option UiSchema) → ℕ → ℕ → Result (Option UiSchema)
find_ui_schema [] type_id repository_id = ok none
find_ui_schema (none ∷ us) type_id repository_id = throw type_error
find_ui_schema (some u ∷ us) type_id repository_id =
    let rest = find_ui_schema us type_id repository_id in
    if u.repository_id == repository_id && type_id == u.attribute_type_id then ok (some u) else rest

unfoldable pub select_ui_schema : State → ℕ → ℕ → Result (Option UiSchema)
unfolding select_ui_schemas find_ui_schema
select_ui_schema s type_id repository_id =
    find_ui_schema (select_ui_schemas s) type_id repository_id

-- An attribute with its type, its repository, its documents, and whether its data are valid.
pub record FullAttribute : Type 0 where
  pub attribute : IdAttribute
  pub type : IdAttributeType
  pub default_repository : Repository
  pub default_ui_schema : Option UiSchema
  pub is_valid : Bool
  pub documents : List Document

abbrev pub defined : {A : Type 0} → Option A → Result A
defined none = throw type_error
defined (some a) = ok a

module _ (validate : Option Schema → Value → List Document → Bool) where
  unfoldable pub full_attribute :
      State → Dict (Option ℕ) (List Document) → IdAttribute → Result FullAttribute
  unfolding select_ui_schema
  full_attribute s documents a = do
    type ← defined (elim a.type_id [ none ↦ none | some t ↦ lookup t s.id_attribute_types.by_id ])
    repository ← defined (lookup type.default_repository_id s.repositories.by_id)
    ui_schema ← select_ui_schema s type.id repository.id
    let attr_docs = or_else (lookup (some a.id) documents) []
    fields ← defined a.fields
    ok (record {
      attribute = a;
      type = type;
      default_repository = repository;
      default_ui_schema = ui_schema;
      is_valid = validate type.content (get (codes "value") fields) attr_docs;
      documents = attr_docs;
    })

  unfoldable pub full_attributes :
      State → Dict (Option ℕ) (List Document) → List IdAttribute → Result (List FullAttribute)
  unfolding full_attribute
  full_attributes s documents [] = ok []
  full_attributes s documents (a ∷ as') = do
    x ← full_attribute s documents a
    xs ← full_attributes s documents as'
    ok (x ∷ xs)

  unfoldable pub select_full_id_attributes_by_ids :
      State → ℕ → Option (List ℕ) → Result (List FullAttribute)
  unfolding select_documents_by_attribute_ids select_id_attributes full_attributes
  select_full_id_attributes_by_ids s wallet_id ids = do
    documents ← select_documents_by_attribute_ids s ids
    attributes ← select_id_attributes s wallet_id
    xs ← full_attributes s documents (filter (λ a. wanted ids (some a.id)) attributes)
    ok (filter (λ x. is_some x.type.content) xs)
