-- ===== src/Identity/Reducers.antt =====
-- The reducers of src/common/identity/reducers.js. A reducer throws where it reads a property of an
-- entity that its object does not hold.
pub mod Consistency
use identity_wallet.Common.{
  ℕ, Bool, true, false, not, Option, none, some, List, [], ◌∷◌, ◌++◌, if◌then◌else◌, or_else,
  Result, ok, ◌>>=◌, ◌==◌, contains, nat_eq, option_eq, is_some,
}
use identity_wallet.Common.Dict.{lookup, insert}
use identity_wallet.Common.Collection.{Collection, keep, listed, remove, of_list, add}
use identity_wallet.Identity.State.{
  State, Action, Country, Repository, IdAttributeType, UiSchema, Document, IdAttribute,
  merge_document, merge_id_attribute,
}

abbrev pub repository_id : Repository → ℕ
repository_id r = r.id

abbrev pub id_attribute_type_id : IdAttributeType → ℕ
id_attribute_type_id t = t.id

abbrev pub ui_schema_id : UiSchema → ℕ
ui_schema_id s = s.id

abbrev pub document_id : Document → ℕ
document_id d = d.id

abbrev pub id_attribute_id : IdAttribute → ℕ
id_attribute_id a = a.id

unfoldable pub set_countries : List Country → State → State
set_countries countries s = record s { countries = countries }

unfoldable pub set_repositories_reducer : Option (List Repository) → State → State
set_repositories_reducer payload s = record s {
  repositories = of_list repository_id (or_else payload []);
}

unfoldable pub set_id_attribute_types_reducer : Option (List IdAttributeType) → State → State
set_id_attribute_types_reducer payload s = record s {
  id_attribute_types = of_list id_attribute_type_id (or_else payload []);
}

unfoldable pub set_ui_schemas_reducer : Option (List UiSchema) → State → State
set_ui_schemas_reducer payload s = record s {
  ui_schemas = of_list ui_schema_id (or_else payload []);
}

-- The tests of the filters.
abbrev pub document_not_of_wallet : ℕ → Document → Bool
document_not_of_wallet wallet_id d = not (d.wallet_id == some wallet_id)

abbrev pub document_not_of_attribute : ℕ → Document → Bool
document_not_of_attribute attribute_id d = not (d.attribute_id == some attribute_id)

abbrev pub attribute_not_of_wallet : ℕ → IdAttribute → Bool
attribute_not_of_wallet wallet_id a = not (a.wallet_id == some wallet_id)

-- `doc.walletId !== action.walletId`, where the action has its wallet id in the payload only, so that
-- `action.walletId` is `undefined`: a document is kept if it has a wallet id, whichever it is.
abbrev pub has_wallet : Document → Bool
has_wallet d = is_some d.wallet_id

unfoldable pub set_documents_reducer : ℕ → Option (List Document) → State → Result State
set_documents_reducer wallet_id documents s = do
  old_documents ← keep has_wallet (listed s.documents)
  ok (record s { documents = of_list document_id (old_documents ++ or_else documents []) })

unfoldable pub set_attribute_documents_reducer : ℕ → Option (List Document) → State → Result State
set_attribute_documents_reducer attribute_id documents s = do
  old_documents ← keep (document_not_of_attribute attribute_id) (listed s.documents)
  ok (record s { documents = of_list document_id (old_documents ++ or_else documents []) })

unfoldable pub delete_attribute_documents_reducer : ℕ → State → Result State
delete_attribute_documents_reducer attribute_id s = do
  documents ← keep (document_not_of_attribute attribute_id) (listed s.documents)
  ok (record s { documents = of_list document_id documents })

unfoldable pub delete_documents_reducer : ℕ → State → Result State
delete_documents_reducer wallet_id s = do
  documents ← keep (document_not_of_wallet wallet_id) (listed s.documents)
  ok (record s { documents = of_list document_id documents })

unfoldable pub set_id_attributes_reducer : ℕ → Option (List IdAttribute) → State → Result State
set_id_attributes_reducer wallet_id attributes s = do
  old_id_attributes ← keep (attribute_not_of_wallet wallet_id) (listed s.attributes)
  ok (record s {
    attributes = of_list id_attribute_id (old_id_attributes ++ or_else attributes []);
  })

unfoldable pub delete_id_attributes_reducer : ℕ → State → Result State
delete_id_attributes_reducer wallet_id s = do
  attributes ← keep (attribute_not_of_wallet wallet_id) (listed s.attributes)
  ok (record s { attributes = of_list id_attribute_id attributes })

unfoldable pub add_id_attribute_reducer : IdAttribute → State → State
add_id_attribute_reducer a s = record s { attributes = add id_attribute_id a s.attributes }

unfoldable pub add_document_reducer : Document → State → State
add_document_reducer d s = record s { documents = add document_id d s.documents }

-- `{ ...byId[id], ...payload }`, where the spread of `undefined` is empty.
abbrev pub updated : {V : Type 0} → (V → V → V) → Option V → V → V
updated merge none payload = payload
updated merge (some old) payload = merge old payload

unfoldable pub update_id_attribute_reducer : IdAttribute → State → State
update_id_attribute_reducer a s = if not (contains s.attributes.ids a.id) then s else record s {
  attributes = record {
    ids = s.attributes.ids;
    by_id =
        insert a.id (updated merge_id_attribute (lookup a.id s.attributes.by_id) a)
          s.attributes.by_id;
  };
}

unfoldable pub update_document_reducer : Document → State → State
update_document_reducer d s = if not (contains s.documents.ids d.id) then s else record s {
  documents = record {
    ids = s.documents.ids;
    by_id =
        insert d.id (updated merge_document (lookup d.id s.documents.by_id) d) s.documents.by_id;
  };
}

unfoldable pub delete_document_reducer : ℕ → State → State
delete_document_reducer id s =
    if not (contains s.documents.ids id) then s else record s { documents = remove id s.documents }

unfoldable pub delete_id_attribute_reducer : ℕ → State → State
delete_id_attribute_reducer id s =
    if not (contains s.attributes.ids id)
    then s
    else record s { attributes = remove id s.attributes }

-- `reducer`: the dispatch on the action's type.
unfoldable pub reducer : State → Action → Result State
reducer s (Action.countries_set cs) = ok (set_countries cs s)
reducer s (Action.repositories_set rs) = ok (set_repositories_reducer rs s)
reducer s (Action.id_attribute_types_set ts) = ok (set_id_attribute_types_reducer ts s)
reducer s (Action.ui_schemas_set us) = ok (set_ui_schemas_reducer us s)
reducer s (Action.documents_set w ds) = set_documents_reducer w ds s
reducer s (Action.documents_delete w) = delete_documents_reducer w s
reducer s (Action.attributes_set w xs) = set_id_attributes_reducer w xs s
reducer s (Action.attributes_delete w) = delete_id_attributes_reducer w s
reducer s (Action.attribute_documents_set a ds) = set_attribute_documents_reducer a ds s
reducer s (Action.attribute_documents_delete a) = delete_attribute_documents_reducer a s
reducer s (Action.attribute_add a) = ok (add_id_attribute_reducer a s)
reducer s (Action.document_add d) = ok (add_document_reducer d s)
reducer s (Action.attribute_update a) = ok (update_id_attribute_reducer a s)
reducer s (Action.document_update d) = ok (update_document_reducer d s)
reducer s (Action.document_delete i) = ok (delete_document_reducer i s)
reducer s (Action.attribute_delete i) = ok (delete_id_attribute_reducer i s)
reducer s Action.unknown = ok s
