-- ===== src/Identity/Operations.antt =====
-- The operations of src/common/identity/operations.js: each runs its service calls and dispatches
-- in order, over the database behind the services and the store. The services of src/main/identity
-- and src/main/country are an interface over an abstract database, whose rows objection manages.
use identity_wallet.Common.{
  ℕ, Bool, Option, none, some, List, [], map, Result, ok, ◌>>=◌, ◌==◌, find, or_else,
}
use identity_wallet.Schema.Text.{Text, codes, text_eq}
use identity_wallet.Schema.Value.{Value, end, field}
use identity_wallet.Identity.State.{
  State, Action, Country, Repository, IdAttributeType, UiSchema, Document, IdAttribute,
}
use identity_wallet.Identity.Reducers.{reducer}
use identity_wallet.Identity.Selectors.{
  select_expired_repositories, select_expired_id_attribute_types, select_expired_ui_schemas,
  select_id_attribute_types, defined,
}

-- What `getGlobalContext()` gives the operations.
pub record Services (D : Type 0) : Type 0 where
  pub get_countries : D → List Country
  pub load_repositories : D → List Repository
  pub update_repositories : List (Option Repository) → D → D
  pub load_id_attribute_types : D → List IdAttributeType
  pub update_id_attribute_types : List IdAttributeType → D → D
  pub load_ui_schemas : D → List UiSchema
  pub update_ui_schemas : List (Option UiSchema) → D → D
  pub load_documents : ℕ → D → List Document
  pub load_id_attributes : ℕ → D → List IdAttribute
  pub load_documents_for_attribute : ℕ → D → List Document
  pub remove_document : ℕ → D → D
  pub create_id_attribute : IdAttribute → List Document → D → Result (IdAttribute × D)
  pub edit_id_attribute : IdAttribute → List Document → D → Result D
  pub remove_id_attribute : ℕ → D → Result D
  pub update_wallet_name : Text → ℕ → D → D
  pub update_wallet_setup : ℕ → D → D

-- The database, the store and the route that was pushed last.
pub record World (D : Type 0) : Type 0 where
  pub database : D
  pub state : State
  pub route : Option Text

module _ {D : Type 0} where
  abbrev pub dispatch : Action → World D → Result (World D)
  dispatch a w = do s ← reducer w.state a; ok (record w { state = s })

module _ {D : Type 0} (services : Services D) where
  open services use {
    get_countries, load_repositories, update_repositories, load_id_attribute_types,
    update_id_attribute_types, load_ui_schemas, update_ui_schemas, load_documents,
    load_id_attributes, load_documents_for_attribute, remove_document, create_id_attribute,
    edit_id_attribute, remove_id_attribute, update_wallet_name, update_wallet_setup,
  }

  unfoldable pub load_countries_operation : World D → Result (World D)
  load_countries_operation w = dispatch (Action.countries_set (get_countries w.database)) w

  unfoldable pub load_repositories_operation : World D → Result (World D)
  load_repositories_operation w =
      dispatch (Action.repositories_set (some (load_repositories w.database))) w

  unfoldable pub load_id_attribute_types_operation : World D → Result (World D)
  load_id_attribute_types_operation w =
      dispatch (Action.id_attribute_types_set (some (load_id_attribute_types w.database))) w

  unfoldable pub load_ui_schemas_operation : World D → Result (World D)
  load_ui_schemas_operation w =
      dispatch (Action.ui_schemas_set (some (load_ui_schemas w.database))) w

  module _ (force : Bool) (now : ℕ) where
    unfoldable pub update_expired_repositories_operation : World D → Result (World D)
    unfolding load_repositories_operation
    update_expired_repositories_operation w = do
      expired ← select_expired_repositories force now w.state
      load_repositories_operation (record w { database = update_repositories expired w.database })

    unfoldable pub update_expired_id_attribute_types_operation : World D → Result (World D)
    unfolding load_id_attribute_types_operation
    update_expired_id_attribute_types_operation w =
        let expired = select_expired_id_attribute_types force now w.state in
        load_id_attribute_types_operation
          (record w { database = update_id_attribute_types expired w.database })

    unfoldable pub update_expired_ui_schemas_operation : World D → Result (World D)
    unfolding load_ui_schemas_operation
    update_expired_ui_schemas_operation w = do
      expired ← select_expired_ui_schemas force now w.state
      load_ui_schemas_operation (record w { database = update_ui_schemas expired w.database })

  -- `documents.map(doc => ({ ...doc, walletId }))`
  unfoldable pub load_documents_operation : ℕ → World D → Result (World D)
  load_documents_operation wallet_id w =
      dispatch
        (Action.documents_set wallet_id (
          some (
            map (λ (d : Document). record d { wallet_id = some wallet_id })
              (load_documents wallet_id w.database))))
        w

  unfoldable pub load_id_attributes_operation : ℕ → World D → Result (World D)
  load_id_attributes_operation wallet_id w =
      dispatch (Action.attributes_set wallet_id (some (load_id_attributes wallet_id w.database))) w

  unfoldable pub load_documents_for_attribute_operation : ℕ → World D → Result (World D)
  load_documents_for_attribute_operation id w =
      dispatch
        (Action.attribute_documents_set id (some (load_documents_for_attribute id w.database))) w

  unfoldable pub remove_document_operation : ℕ → World D → Result (World D)
  remove_document_operation id w =
      dispatch (Action.document_delete id) (record w { database = remove_document id w.database })

  -- The wallet in the store is an argument; `attribute.walletId || wallet.id`, and no id is 0.
  unfoldable pub create_id_attribute_operation :
      ℕ → IdAttribute → List Document → World D → Result (World D)
  unfolding load_documents_for_attribute_operation
  create_id_attribute_operation wallet attribute documents w = do
    let wallet_id = or_else attribute.wallet_id wallet
    (created, d) ←
        create_id_attribute (record attribute { wallet_id = some wallet_id }) documents w.database
    w' ← load_documents_for_attribute_operation created.id (record w { database = d })
    dispatch (Action.attribute_add created) w'

  unfoldable pub remove_id_attribute_operation : ℕ → World D → Result (World D)
  remove_id_attribute_operation id w = do
    d ← remove_id_attribute id w.database
    w' ← dispatch (Action.attribute_documents_delete id) (record w { database = d })
    dispatch (Action.attribute_delete id) w'

  unfoldable pub edit_id_attribute_operation :
      IdAttribute → List Document → World D → Result (World D)
  unfolding load_documents_for_attribute_operation
  edit_id_attribute_operation attribute documents w = do
    d ← edit_id_attribute attribute documents w.database
    w' ← load_documents_for_attribute_operation attribute.id (record w { database = d })
    dispatch (Action.attribute_update attribute) w'

  unfoldable pub lock_identity_operation : ℕ → World D → Result (World D)
  lock_identity_operation wallet_id w = do
    w' ← dispatch (Action.attributes_delete wallet_id) w
    dispatch (Action.documents_delete wallet_id) w'

  unfoldable pub unlock_identity_operation : ℕ → World D → Result (World D)
  unfolding load_documents_operation load_id_attributes_operation
  unlock_identity_operation wallet_id w = do
    w' ← load_documents_operation wallet_id w
    load_id_attributes_operation wallet_id w'

  -- `idAttributeTypes.find(t => t.url === url).id`
  abbrev type_id_of : List IdAttributeType → Text → Result ℕ
  type_id_of types url = do t ← defined (find (λ t. t.url == url) types); ok t.id

  -- One `createIdAttributeOperation` of `createSelfkeyIdOperation`, on a fresh id of the database.
  create_basic_attribute :
      ℕ → List IdAttributeType → Text → Text → Text → World D → Result (World D)
  unfolding create_id_attribute_operation
  create_basic_attribute wallet types url name value w = do
    type_id ← type_id_of types url
    create_id_attribute_operation wallet
        (record {
          id = 0;
          wallet_id = none;
          type_id = some type_id;
          name = some name;
          fields = some (field (codes "value") (Value.str value) end);
        })
        [] w

  unfoldable pub create_selfkey_id_operation :
      ℕ → ℕ → Text → Text → Text → Text → World D → Result (World D)
  unfolding create_basic_attribute
  create_selfkey_id_operation wallet wallet_id nick_name first_name last_name email w = do
    let types = select_id_attribute_types w.state
    let named = record w { database = update_wallet_name nick_name wallet_id w.database }
    first ←
        create_basic_attribute wallet types
          (codes "http://platform.selfkey.org/schema/attribute/first-name.json")
          (codes "First Name") first_name named
    last ←
        create_basic_attribute wallet types
          (codes "http://platform.selfkey.org/schema/attribute/last-name.json") (codes "Last Name")
          last_name first
    mail ←
        create_basic_attribute wallet types
          (codes "http://platform.selfkey.org/schema/attribute/email.json") (codes "Email") email
          last
    ok (record {
      database = update_wallet_setup wallet_id mail.database;
      state = mail.state;
      route = some (codes "/selfkeyIdCreateAbout");
    })
