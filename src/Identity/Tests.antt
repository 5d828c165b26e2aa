-- ===== src/Identity/Tests.antt =====
-- The theorems on the identity store, at one store: two wallets with an attribute each, and a
-- document of the first.
use identity_wallet.Common.{
  ℕ, ◌≡◌, refl, true, Option, none, some, List, [], ◌∷◌, ◌++◌, map, filter, ok, ◌>>=◌, contains,
  nat_eq, option_eq, arith,
}
use identity_wallet.Common.Dict.{Dict, lookup, insert, lookup-nil, lookup-insert}
use identity_wallet.Common.Collection.{of_list, index_from, listed}
use identity_wallet.Common.Collection.Laws.{Distinct, of_list-IsConsistent}
use identity_wallet.Schema.Text.{codes}
use identity_wallet.Identity.State.{State, Action, Document, IdAttribute, initial_state}
use identity_wallet.Identity.Reducers.{
  repository_id, id_attribute_type_id, ui_schema_id, document_id, id_attribute_id, has_wallet,
  reducer, set_id_attributes_reducer, delete_id_attributes_reducer,
}
use identity_wallet.Identity.Reducers.Consistency.{
  IsValid, ReturnsValid, reducer-IsValid, run, run-IsValid, initial_state-IsValid,
}
use identity_wallet.Identity.Selectors.{
  select_documents, select_id_attributes, select_documents_by_attribute_ids,
}
use identity_wallet.Identity.Selectors.Grouping.{
  documents_of, group, select_documents_by_attribute_ids-group,
}
use identity_wallet.Identity.Operations.{
  Services, World, lock_identity_operation, load_documents_operation,
  load_documents_for_attribute_operation,
}
use identity_wallet.Identity.Reloading.{load_documents_operation-appends}
use identity_wallet.Identity.Wallets.{
  OthersKeep, set_id_attributes_reducer-select, delete_id_attributes_reducer-select,
}
use identity_wallet.Identity.Lock.{
  documents_of_wallet, lock_identity_operation-clears, lock_identity_operation-keeps,
}

abbrev attribute : ℕ → ℕ → IdAttribute
attribute i w = record { id = i; wallet_id = some w; type_id = some 1; name = none; fields = none }

abbrev document : ℕ → Option ℕ → Option ℕ → Document
document i a w = record {
  id = i;
  attribute_id = a;
  wallet_id = w;
  name = none;
  mime_type = some (codes "image/png");
  size = some 128;
  content = none;
}

abbrev store : State
store = record {
  repositories = of_list repository_id [];
  id_attribute_types = of_list id_attribute_type_id [];
  ui_schemas = of_list ui_schema_id [];
  documents = of_list document_id (document 1 (some 1) (some 1) ∷ []);
  attributes = of_list id_attribute_id (attribute 1 1 ∷ attribute 2 2 ∷ []);
  countries = [];
}

store-IsValid : IsValid store
store-IsValid = record {
  repositories = of_list-IsConsistent repository_id [];
  id_attribute_types = of_list-IsConsistent id_attribute_type_id [];
  ui_schemas = of_list-IsConsistent ui_schema_id [];
  documents = of_list-IsConsistent document_id (document 1 (some 1) (some 1) ∷ []);
  attributes = of_list-IsConsistent id_attribute_id (attribute 1 1 ∷ attribute 2 2 ∷ []);
}

Distinct-attributes : Distinct store.attributes.ids
unfolding of_list nat_eq
Distinct-attributes = (refl, (refl, tt))

Distinct-documents : Distinct store.documents.ids
unfolding of_list nat_eq
Distinct-documents = (refl, tt)

-- Services with one document to load for an attribute, which has no wallet id, over a database
-- that is the number of calls that changed it.
abbrev services : Services ℕ
services = record {
  get_countries = λ d. [];
  load_repositories = λ d. [];
  update_repositories = λ rs d. d;
  load_id_attribute_types = λ d. [];
  update_id_attribute_types = λ ts d. d;
  load_ui_schemas = λ d. [];
  update_ui_schemas = λ us d. d;
  load_documents = λ w d. document 1 (some 1) none ∷ [];
  load_id_attributes = λ w d. [];
  load_documents_for_attribute = λ i d. document 9 (some i) none ∷ [];
  remove_document = λ i d. ℕ.suc d;
  create_id_attribute = λ a ds d. ok (a, ℕ.suc d);
  edit_id_attribute = λ a ds d. ok (ℕ.suc d);
  remove_id_attribute = λ i d. ok (ℕ.suc d);
  update_wallet_name = λ n w d. ℕ.suc d;
  update_wallet_setup = λ w d. ℕ.suc d;
}

abbrev world : World ℕ
world = record { database = 0; state = store; route = none }

abbrev update_second : Action
update_second = Action.attribute_update (attribute 2 1)

reducer-IsValid_example : ReturnsValid (reducer store update_second)
reducer-IsValid_example = reducer-IsValid store-IsValid update_second

-- After loading the documents of the wallet 1, those of 2 are loaded: the service has one document,
-- whose id is listed already.
load_documents_operation-appends_example :
    (old : List Document) × (t : World ℕ) × (u : World ℕ) × (listed store.documents ≡ map some old)
    × (load_documents_operation services 1 world ≡ ok t)
    × (t.state.documents.ids ≡ map document_id (filter has_wallet old) ++ 1 ∷ [])
    × (load_documents_operation services 2 t ≡ ok u)
    × (u.state.documents.ids ≡ t.state.documents.ids ++ 1 ∷ [])
    × (u.database ≡ 0)
load_documents_operation-appends_example =
    load_documents_operation-appends services 1 2 world store-IsValid

run_test : ReturnsValid (
    run initial_state (
      Action.attribute_add (attribute 1 1)
      ∷ Action.documents_set 1 none
      ∷ Action.attribute_delete 1
      ∷ []))
run_test =
    run-IsValid
      (Action.attribute_add (attribute 1 1)
        ∷ Action.documents_set 1 none
        ∷ Action.attribute_delete 1
        ∷ [])
      initial_state-IsValid

attributes_are_of_first :
    (i : ℕ) (a : IdAttribute)
    → contains (1 ∷ 3 ∷ []) i ≡ true
    → lookup i store.attributes.by_id ≡ some a
    → a.wallet_id ≡ some 1
unfolding of_list index_from
attributes_are_of_first i a known l = ground (
  arith,
  lookup-nil {V = IdAttribute} i,
  lookup-insert i 1 (attribute 1 1) [],
  lookup-insert i 2 (attribute 2 2) (insert 1 (attribute 1 1) []),
)

set_id_attributes_reducer-select_example :
    (t : State) × (set_id_attributes_reducer 1 (some (attribute 1 1 ∷ attribute 3 1 ∷ [])) store
      ≡ ok t)
    × (select_id_attributes t 1 ≡ ok (attribute 1 1 ∷ attribute 3 1 ∷ []))
    × OthersKeep 1 store t
unfolding nat_eq
set_id_attributes_reducer-select_example =
    set_id_attributes_reducer-select 1 store-IsValid Distinct-attributes
      (attribute 1 1 ∷ attribute 3 1 ∷ []) (refl, (refl, tt)) (refl, (refl, tt))
      attributes_are_of_first

delete_id_attributes_reducer-select_example :
    (t : State) × (delete_id_attributes_reducer 2 store ≡ ok t)
    × (select_id_attributes t 2 ≡ ok [])
    × OthersKeep 2 store t
    × (t.documents ≡ store.documents)
delete_id_attributes_reducer-select_example =
    delete_id_attributes_reducer-select 2 store-IsValid Distinct-attributes

lock_identity_operation-clears_example :
    (t : World ℕ) × (lock_identity_operation services 1 world ≡ ok t)
    × (select_id_attributes t.state 1 ≡ ok [])
    × OthersKeep 1 store t.state
    × (documents_of_wallet t.state 1 ≡ ok [])
    × (t.database ≡ 0)
lock_identity_operation-clears_example =
    lock_identity_operation-clears services 1 world store-IsValid Distinct-attributes
      Distinct-documents

lock_identity_operation-keeps_example :
    (t : World ℕ) × ((do
      loaded ← load_documents_for_attribute_operation services 1 world
      lock_identity_operation services 1 loaded)
      ≡ ok t)
    × (contains t.state.documents.ids 9 ≡ true)
unfolding nat_eq
lock_identity_operation-keeps_example =
    lock_identity_operation-keeps services 1 1 world 9 store-IsValid (λ i d. (refl, tt)) refl

select_documents_by_attribute_ids-group_example :
    (ds : List Document) × (r : Dict (Option ℕ) (List Document)) × (select_documents store
      ≡ map some ds)
    × (select_documents_by_attribute_ids store (some (1 ∷ [])) ≡ ok r)
    × ((k : Option ℕ) → group k r ≡ documents_of (some (1 ∷ [])) k ds)
select_documents_by_attribute_ids-group_example =
    select_documents_by_attribute_ids-group store (some (1 ∷ [])) store-IsValid
