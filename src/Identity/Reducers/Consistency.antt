-- ===== src/Identity/Reducers/Consistency.antt =====
-- The invariant of the identity state, and that every action keeps it and throws nothing.
use identity_wallet.Common.{
  ℕ, ◌≡◌, refl, ap, ◌∙◌, Bool, true, Option, none, some, List, [], ◌∷◌, ◌++◌, arith, or_else,
  Bool-cases, inl, inr, Result, ok, ◌>>=◌, contains, filter, nat_eq,
}
use identity_wallet.Common.Dict.{lookup, insert, lookup-insert}
use identity_wallet.Common.Collection.{Collection, keep, listed, of_list, IsConsistent}
use identity_wallet.Common.Collection.Laws.{
  keep-some, listed-some, of_list-IsConsistent, add-IsConsistent, remove-IsConsistent,
}
use identity_wallet.Identity.State.{
  State, Action, Document, IdAttribute, merge_document, merge_id_attribute, initial_state,
}
use identity_wallet.Identity.Reducers.{
  repository_id, id_attribute_type_id, ui_schema_id, document_id, id_attribute_id, reducer,
  set_countries, set_repositories_reducer, set_id_attribute_types_reducer, set_ui_schemas_reducer,
  set_documents_reducer, set_attribute_documents_reducer, delete_attribute_documents_reducer,
  delete_documents_reducer, set_id_attributes_reducer, delete_id_attributes_reducer,
  add_id_attribute_reducer, add_document_reducer, updated, update_id_attribute_reducer,
  update_document_reducer, delete_document_reducer, delete_id_attribute_reducer,
}

-- In each of the five collections the listed ids are the stored ones, each under its own id.
pub record IsValid (s : State) : Type 0 where
  pub repositories : IsConsistent repository_id s.repositories
  pub id_attribute_types : IsConsistent id_attribute_type_id s.id_attribute_types
  pub ui_schemas : IsConsistent ui_schema_id s.ui_schemas
  pub documents : IsConsistent document_id s.documents
  pub attributes : IsConsistent id_attribute_id s.attributes

-- The call returns, and with a valid state.
abbrev pub ReturnsValid : Result State → Type 0
ReturnsValid r = (t : State) × (r ≡ ok t) × IsValid t

module _ {V : Type 0} (key : V → ℕ) where
  -- What a filter over a consistent collection returns.
  pub keep-listed :
      (p : V → Bool) (c : Collection ℕ V)
      → IsConsistent key c
      → (xs : List V) × (keep p (listed c) ≡ ok xs)
  keep-listed p c h =
      let (xs, e, _, _) = listed-some key c h in (filter p xs, ap (keep p) e ∙ keep-some p xs)

  key-updated :
      (merge : V → V → V) (x : V) (o : Option V)
      → ((old : V) → key (merge old x) ≡ key x)
      → key (updated merge o x) ≡ key x
  key-updated merge x none same = refl
  key-updated merge x (some old) same = same old

  pub update-IsConsistent :
      (merge : V → V → V) (x : V) (c : Collection ℕ V)
      → ((old : V) → key (merge old x) ≡ key x)
      → IsConsistent key c
      → contains c.ids (key x) ≡ true
      → IsConsistent key (record {
        ids = c.ids;
        by_id = insert (key x) (updated merge (lookup (key x) c.by_id) x) c.by_id;
      })
  update-IsConsistent merge x c same h known = record {
    domain = λ i. ground (
      arith,
      h.domain i,
      lookup-insert i (key x) (updated merge (lookup (key x) c.by_id) x) c.by_id,
    );
    keyed = λ i y q. ground (
      arith,
      h.keyed i y,
      key-updated merge x (lookup (key x) c.by_id) same,
      lookup-insert i (key x) (updated merge (lookup (key x) c.by_id) x) c.by_id,
    );
  }

module _ {s : State} (v : IsValid s) where
  with_documents :
      {c : Collection ℕ Document}
      → IsConsistent document_id c
      → IsValid (record s { documents = c })
  with_documents h = record {
    repositories = v.repositories;
    id_attribute_types = v.id_attribute_types;
    ui_schemas = v.ui_schemas;
    documents = h;
    attributes = v.attributes;
  }

  with_attributes :
      {c : Collection ℕ IdAttribute}
      → IsConsistent id_attribute_id c
      → IsValid (record s { attributes = c })
  with_attributes h = record {
    repositories = v.repositories;
    id_attribute_types = v.id_attribute_types;
    ui_schemas = v.ui_schemas;
    documents = v.documents;
    attributes = h;
  }

  -- The reducers that filter a collection and build it anew.
  documents-Returns :
      (p : Document → Bool) (f : List Document → List Document)
      → ReturnsValid (do
        old ← keep p (listed s.documents)
        ok (record s { documents = of_list document_id (f old) }))
  documents-Returns p f =
      let (old, e) = keep-listed document_id p s.documents v.documents in
      (
        record s { documents = of_list document_id (f old) },
        rw e,
        with_documents (of_list-IsConsistent document_id (f old)),
      )

  attributes-Returns :
      (p : IdAttribute → Bool) (f : List IdAttribute → List IdAttribute)
      → ReturnsValid (do
        old ← keep p (listed s.attributes)
        ok (record s { attributes = of_list id_attribute_id (f old) }))
  attributes-Returns p f =
      let (old, e) = keep-listed id_attribute_id p s.attributes v.attributes in
      (
        record s { attributes = of_list id_attribute_id (f old) },
        rw e,
        with_attributes (of_list-IsConsistent id_attribute_id (f old)),
      )

  update_document_reducer-IsValid : (d : Document) → IsValid (update_document_reducer d s)
  unfolding update_document_reducer
  update_document_reducer-IsValid d = elim (Bool-cases (contains s.documents.ids d.id)) [
    | inl known ↦ rw known (
        with_documents (
          update-IsConsistent document_id merge_document d s.documents
            (λ old. unfold merge_document in refl) v.documents known))
    | inr new ↦ rw new v
  ]

  update_id_attribute_reducer-IsValid :
      (a : IdAttribute) → IsValid (update_id_attribute_reducer a s)
  unfolding update_id_attribute_reducer
  update_id_attribute_reducer-IsValid a = elim (Bool-cases (contains s.attributes.ids a.id)) [
    | inl known ↦ rw known (
        with_attributes (
          update-IsConsistent id_attribute_id merge_id_attribute a s.attributes
            (λ old. unfold merge_id_attribute in refl) v.attributes known))
    | inr new ↦ rw new v
  ]

  delete_document_reducer-IsValid : (i : ℕ) → IsValid (delete_document_reducer i s)
  unfolding delete_document_reducer
  delete_document_reducer-IsValid i = elim (Bool-cases (contains s.documents.ids i)) [
    | inl known ↦
        rw known (with_documents (remove-IsConsistent document_id i s.documents v.documents))
    | inr new ↦ rw new v
  ]

  delete_id_attribute_reducer-IsValid : (i : ℕ) → IsValid (delete_id_attribute_reducer i s)
  unfolding delete_id_attribute_reducer
  delete_id_attribute_reducer-IsValid i = elim (Bool-cases (contains s.attributes.ids i)) [
    | inl known ↦
        rw known (with_attributes (remove-IsConsistent id_attribute_id i s.attributes v.attributes))
    | inr new ↦ rw new v
  ]

  -- In a valid state no action throws, and the state that it returns is valid.
  pub reducer-IsValid : (a : Action) → ReturnsValid (reducer s a)
  unfolding reducer set_countries set_repositories_reducer set_id_attribute_types_reducer
      set_ui_schemas_reducer set_documents_reducer set_attribute_documents_reducer
      delete_attribute_documents_reducer delete_documents_reducer set_id_attributes_reducer
      delete_id_attributes_reducer add_id_attribute_reducer add_document_reducer
  reducer-IsValid (Action.countries_set cs) = (
    _,
    refl,
    record {
      repositories = v.repositories;
      id_attribute_types = v.id_attribute_types;
      ui_schemas = v.ui_schemas;
      documents = v.documents;
      attributes = v.attributes;
    },
  )
  reducer-IsValid (Action.repositories_set rs) = (
    _,
    refl,
    record {
      repositories = of_list-IsConsistent repository_id (or_else rs []);
      id_attribute_types = v.id_attribute_types;
      ui_schemas = v.ui_schemas;
      documents = v.documents;
      attributes = v.attributes;
    },
  )
  reducer-IsValid (Action.id_attribute_types_set ts) = (
    _,
    refl,
    record {
      repositories = v.repositories;
      id_attribute_types = of_list-IsConsistent id_attribute_type_id (or_else ts []);
      ui_schemas = v.ui_schemas;
      documents = v.documents;
      attributes = v.attributes;
    },
  )
  reducer-IsValid (Action.ui_schemas_set us) = (
    _,
    refl,
    record {
      repositories = v.repositories;
      id_attribute_types = v.id_attribute_types;
      ui_schemas = of_list-IsConsistent ui_schema_id (or_else us []);
      documents = v.documents;
      attributes = v.attributes;
    },
  )
  reducer-IsValid (Action.documents_set w ds) = documents-Returns _ (λ old. old ++ or_else ds [])
  reducer-IsValid (Action.documents_delete w) = documents-Returns _ (λ old. old)
  reducer-IsValid (Action.attributes_set w xs) = attributes-Returns _ (λ old. old ++ or_else xs [])
  reducer-IsValid (Action.attributes_delete w) = attributes-Returns _ (λ old. old)
  reducer-IsValid (Action.attribute_documents_set a ds) =
      documents-Returns _ (λ old. old ++ or_else ds [])
  reducer-IsValid (Action.attribute_documents_delete a) = documents-Returns _ (λ old. old)
  reducer-IsValid (Action.attribute_add a) =
      (_, refl, with_attributes (add-IsConsistent id_attribute_id a s.attributes v.attributes))
  reducer-IsValid (Action.document_add d) =
      (_, refl, with_documents (add-IsConsistent document_id d s.documents v.documents))
  reducer-IsValid (Action.attribute_update a) = (_, refl, update_id_attribute_reducer-IsValid a)
  reducer-IsValid (Action.document_update d) = (_, refl, update_document_reducer-IsValid d)
  reducer-IsValid (Action.document_delete i) = (_, refl, delete_document_reducer-IsValid i)
  reducer-IsValid (Action.attribute_delete i) = (_, refl, delete_id_attribute_reducer-IsValid i)
  reducer-IsValid Action.unknown = (s, refl, v)

pub initial_state-IsValid : IsValid initial_state
unfolding of_list
initial_state-IsValid = record {
  repositories = of_list-IsConsistent repository_id [];
  id_attribute_types = of_list-IsConsistent id_attribute_type_id [];
  ui_schemas = of_list-IsConsistent ui_schema_id [];
  documents = of_list-IsConsistent document_id [];
  attributes = of_list-IsConsistent id_attribute_id [];
}

-- The store after a run of actions.
abbrev pub run : State → List Action → Result State
run s [] = ok s
run s (a ∷ rest) = reducer s a >>= λ t. run t rest

-- From a valid state, such as the initial one, every run of actions returns, and its state is
-- valid.
pub run-IsValid : (actions : List Action) {s : State} → IsValid s → ReturnsValid (run s actions)
run-IsValid [] {s} v = (s, refl, v)
run-IsValid (a ∷ rest) v = let (t, e, w) = reducer-IsValid v a in rw e (run-IsValid rest w)
