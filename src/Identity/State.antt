-- ===== src/Identity/State.antt =====
-- The entities, the state and the actions of src/common/identity (reducers.js, actions.js,
-- types.js). A field that may be `undefined` is an `Option`.
use identity_wallet.Common.{ℕ, Option, none, some, List, []}
use identity_wallet.Common.Collection.{Collection, empty}
use identity_wallet.Schema.Text.{Text}
use identity_wallet.Schema.Value.{Fields}
use identity_wallet.Schema.Types.{Schema}

pub record Country : Type 0 where
  pub code : Text
  pub name : Text

pub record Repository : Type 0 where
  pub id : ℕ
  pub url : Text
  pub expires : ℕ

pub record IdAttributeType : Type 0 where
  pub id : ℕ
  pub url : Text
  pub default_repository_id : ℕ
  pub content : Option Schema
  pub expires : ℕ

pub record UiSchema : Type 0 where
  pub id : ℕ
  pub url : Text
  pub repository_id : ℕ
  pub attribute_type_id : ℕ
  pub expires : ℕ

-- A document as the services load it, or the payload of an update: every property but the id may
-- be missing. The table `documents` has no `walletId`: one caller adds it.
pub record Document : Type 0 where
  pub id : ℕ
  pub attribute_id : Option ℕ
  pub wallet_id : Option ℕ
  pub name : Option Text
  pub mime_type : Option Text
  pub size : Option ℕ
  pub content : Option Text

pub record IdAttribute : Type 0 where
  pub id : ℕ
  pub wallet_id : Option ℕ
  pub type_id : Option ℕ
  pub name : Option Text
  pub fields : Option Fields

abbrev over {ℓ} : {A : Type ℓ} → Option A → Option A → Option A
over none old = old
over (some a) old = some a

-- `{ ...document, ...patch }`
unfoldable pub merge_document : Document → Document → Document
merge_document d p = record {
  id = p.id;
  attribute_id = over p.attribute_id d.attribute_id;
  wallet_id = over p.wallet_id d.wallet_id;
  name = over p.name d.name;
  mime_type = over p.mime_type d.mime_type;
  size = over p.size d.size;
  content = over p.content d.content;
}

-- `{ ...attribute, ...patch }`
unfoldable pub merge_id_attribute : IdAttribute → IdAttribute → IdAttribute
merge_id_attribute a p = record {
  id = p.id;
  wallet_id = over p.wallet_id a.wallet_id;
  type_id = over p.type_id a.type_id;
  name = over p.name a.name;
  fields = over p.fields a.fields;
}

pub record State : Type 0 where
  pub repositories : Collection ℕ Repository
  pub id_attribute_types : Collection ℕ IdAttributeType
  pub ui_schemas : Collection ℕ UiSchema
  pub documents : Collection ℕ Document
  pub attributes : Collection ℕ IdAttribute
  pub countries : List Country

abbrev pub initial_state : State
initial_state = record {
  repositories = empty;
  id_attribute_types = empty;
  ui_schemas = empty;
  documents = empty;
  attributes = empty;
  countries = [];
}

-- The actions, with their payloads. A list that may be missing is an `Option`.
pub data Action : Type 0 where
  countries_set : List Country → Action
  repositories_set : Option (List Repository) → Action
  id_attribute_types_set : Option (List IdAttributeType) → Action
  ui_schemas_set : Option (List UiSchema) → Action
  documents_set : ℕ → Option (List Document) → Action
  documents_delete : ℕ → Action
  attributes_set : ℕ → Option (List IdAttribute) → Action
  attributes_delete : ℕ → Action
  attribute_documents_set : ℕ → Option (List Document) → Action
  attribute_documents_delete : ℕ → Action
  attribute_add : IdAttribute → Action
  document_add : Document → Action
  attribute_update : IdAttribute → Action
  document_update : Document → Action
  document_delete : ℕ → Action
  attribute_delete : ℕ → Action
  unknown : Action
