-- ===== src/Kyc/Operations/Applications.antt =====
-- The operations on applications: creating, paying for, starting, submitting and cancelling one.
use identity_wallet.Common.{
  ℕ, Bool, true, Option, none, some, List, [], ◌∷◌, ◌++◌, map, if◌then◌else◌, or_else, find, Result,
  ok, throw, error, Exception, ◌==◌, nat_eq, option_eq,
}
use identity_wallet.Common.Dict.{Dict, lookup, insert}
use identity_wallet.Schema.Text.{Text, codes, text_eq}
use identity_wallet.Schema.Value.{Value, Fields, end, field, num, str}
use identity_wallet.Schema.Types.{Schema}
use identity_wallet.Staking.Chain.{Run, pure, fail, ◌>>=◌}
use identity_wallet.Identity.State.{Document, State as Identity}
use identity_wallet.Identity.Selectors.{FullAttribute, select_full_id_attributes_by_ids}
use identity_wallet.Kyc.State.{
  Action, Session, Template, RelyingParty, CurrentApplication, undefined_error,
}
use identity_wallet.Kyc.Reducers.{update_relying_party, clear_current_application}
use identity_wallet.Kyc.Session.{KycAttribute, settled, decoded}
use identity_wallet.Kyc.Selectors.{
  Requirement, relying_party_selector, select_requirements_for_template,
  relying_party_should_update_selector,
}
use identity_wallet.Kyc.Operations.{
  RelyingParties, World, dispatch, push, calling, get_store, attempt, ErrorTexts,
  load_relying_party_operation, when,
}

-- An attribute that an application asks for, with the one that was selected.
pub record RequiredAttribute : Type 0 where
  pub id : Option Text
  pub attribute_id : Option ℕ
  pub schema_id : Text
  pub schema : Option Schema
  pub required : Bool
  pub type : Text

abbrev own : {A : Type 0} → Text → (A → Value) → Option A → Fields → Fields
own k value none o = o
own k value (some a) o = field k (value a) o

-- A stored document as an object, without the properties that are `undefined`.
unfoldable pub document_fields : Document → Fields
document_fields d = field (codes "id") (num d.id) (
    own (codes "attributeId") num d.attribute_id (
      own (codes "walletId") num d.wallet_id (
        own (codes "name") str d.name (
          own (codes "mimeType") str d.mime_type
            (own (codes "size") num d.size (own (codes "content") str d.content end))))))

-- Ids that are `undefined` are no attribute's.
unfoldable pub attribute_ids : List RequiredAttribute → List ℕ
attribute_ids [] = []
attribute_ids (a ∷ as') = elim a.attribute_id [
  | none ↦ attribute_ids as'
  | some i ↦ i ∷ attribute_ids as'
]

-- `kycAttributes[attributeId]`: the last with an id replaces the others.
unfoldable pub by_attribute_id : Dict ℕ FullAttribute → List FullAttribute → Dict ℕ FullAttribute
by_attribute_id acc [] = acc
by_attribute_id acc (x ∷ xs) = by_attribute_id (insert x.attribute.id x acc) xs

abbrev loaded_attribute : Dict ℕ FullAttribute → Option ℕ → Option FullAttribute
loaded_attribute loaded none = none
loaded_attribute loaded (some i) = lookup i loaded

unfoldable pub kyc_attribute : Dict ℕ FullAttribute → RequiredAttribute → KycAttribute
unfolding document_fields
kyc_attribute loaded a = elim (loaded_attribute loaded a.attribute_id) [
  | none ↦ record {
    id = a.id;
    schema_id = a.schema_id;
    schema = a.schema;
    required = a.required;
    fields = none;
    documents = none;
  }
  | some x ↦ record {
    id = a.id;
    schema_id = a.schema_id;
    schema = a.schema;
    required = a.required;
    fields = some (or_else x.attribute.fields end);
    documents = some (map document_fields x.documents);
  }
]

-- `selected[r.uiId] || r.options[0]`, of a requirement with options.
unfoldable pub selection : Dict Text FullAttribute → Requirement → Option FullAttribute
selection selected r = elim r.options [
  | [] ↦ none
  | x ∷ xs ↦ some (or_else (lookup r.ui_id selected) x)
]

unfoldable pub required_attribute : Dict Text FullAttribute → Requirement → RequiredAttribute
unfolding selection
required_attribute selected r = record {
  id = r.id;
  attribute_id = elim (selection selected r) [ none ↦ none | some x ↦ some x.attribute.id ];
  schema_id = r.schema_id;
  schema = elim r.type [ none ↦ none | some t ↦ t.content ];
  required = r.required;
  type = elim r.t_type [
    | none ↦ codes "individual"
    | some t ↦ elim t [ [] ↦ codes "individual" | c ∷ s ↦ c ∷ s ]
  ];
}

abbrev no_party : Exception
no_party = error "relying party does not exist"

module _ {W : Type 0} where
  -- An assignment to the relying party that the store holds.
  abbrev pub assign : Text → RelyingParty → Run (World W) (Unit {0})
  assign name rp w = (
    ok tt,
    record w {
      store = record w.store {
        kyc = record w.store.kyc {
          relying_parties_by_name = insert name rp w.store.kyc.relying_parties_by_name;
        };
      };
    },
  )

  -- What is looked for, or an error in its place.
  abbrev pub found_or : {A : Type 0} → Exception → Option A → Run (World W) A
  found_or x none = fail x
  found_or x (some a) = pure a

  -- `startCurrentApplicationOperation`
  unfoldable pub start_current_application_operation :
      Text → CurrentApplication → Run (World W) (Unit {0})
  start_current_application_operation name a = do
    set ←
        dispatch
          (Action.current_set (some (record a { relying_party_name = some name; error = none })))
    push (some (codes "/main/kyc/current-application/" ++ name))

  unfoldable pub cancel_current_application_operation : Run (World W) (Unit {0})
  cancel_current_application_operation = do
    store ← get_store
    a ← decoded store.kyc.current_application
    routed ← push a.cancel_route
    dispatch clear_current_application

  unfoldable pub clear_relying_party_operation : Run (World W) (Unit {0})
  clear_relying_party_operation = dispatch (Action.rp_update none undefined_error)

module _ {W : Type 0} (parties : RelyingParties W) (texts : ErrorTexts) (instance_url : Text)
    (now : ℕ) (uuid : ℕ → Text) (validate : Option Schema → Value → List Document → Bool) where
  open parties use {
    is_active, establish, list_kyc_applications, create_kyc_application, get_kyc_application,
    update_kyc_application_payment,
  }

  unfoldable pub select_kyc_attributes :
      Identity → ℕ → List RequiredAttribute → Result (List KycAttribute)
  unfolding attribute_ids by_attribute_id kyc_attribute
  select_kyc_attributes identity wallet_id attributes =
      elim (select_full_id_attributes_by_ids validate identity wallet_id
        (some (attribute_ids attributes))) [
          | throw x ↦ throw x
          | ok xs ↦ ok (map (kyc_attribute (by_attribute_id [] xs)) attributes)
        ]

  -- `rp.session`, which is established anew in place if it is not active.
  unfoldable pub active_session : Text → RelyingParty → Session → Run (World W) Session
  active_session name rp session =
      let renewed = do
        established ← calling (establish session)
        stored ← assign name (record rp { session = some established })
        pure established
      in if is_active session then pure session else renewed

  unfoldable pub create_relying_party_kyc_application :
      Option Text → Option Text → List RequiredAttribute → Run (World W) (Unit {0})
  unfolding relying_party_selector active_session select_kyc_attributes
  create_relying_party_kyc_application name template_id attributes = do
    store ← get_store
    rp ← found_or no_party (relying_party_selector store.kyc name)
    stored ← found_or no_party rp.session
    templates ← decoded rp.templates
    template ←
        found_or (error "template does not exist")
          (find (λ (t : Template). t.id == template_id) templates)
    session ← active_session (or_else name []) rp stored
    selected ← settled (select_kyc_attributes store.identity store.wallet_id attributes)
    created ← calling (create_kyc_application session (or_else template_id []) selected)
    application ← calling (get_kyc_application session created.id)
    dispatch (Action.application_add (or_else name []) application)

  unfoldable pub update_relying_party_kyc_application_payment :
      Option Text → Text → Text → Run (World W) (Unit {0})
  unfolding relying_party_selector active_session update_relying_party
  update_relying_party_kyc_application_payment name application_id transaction_hash = do
    store ← get_store
    rp ← found_or no_party (relying_party_selector store.kyc name)
    stored ← found_or no_party rp.session
    session ← active_session (or_else name []) rp stored
    paid ← calling (update_kyc_application_payment session application_id transaction_hash)
    applications ← calling (list_kyc_applications session)
    let rp' = record rp { session = some session; applications = some applications }
    assigned ← assign (or_else name []) rp'
    dispatch (update_relying_party rp' none)

  -- The attributes of a current application are never set, and always empty. What the request
  -- library puts into `error.error` is taken to be the exception.
  unfoldable pub submit_current_application_operation :
      Dict Text FullAttribute → Run (World W) (Unit {0})
  unfolding select_requirements_for_template required_attribute create_relying_party_kyc_application
      relying_party_should_update_selector load_relying_party_operation
  submit_current_application_operation selected = do
    store ← get_store
    a ← decoded store.kyc.current_application
    found ←
        settled
          (select_requirements_for_template uuid validate store a.relying_party_name a.template_id)
    requirements ← decoded found
    submitted ←
        attempt
          (do
            set ← dispatch (Action.current_set (some (record a { error = none })))
            created ←
                create_relying_party_kyc_application a.relying_party_name a.template_id
                  (map (required_attribute selected) requirements)
            push a.return_route)
          (λ x. dispatch (Action.current_set (some (record a { error = some x }))))
    update ←
        settled
          (relying_party_should_update_selector instance_url now store a.relying_party_name true)
    when update (
        load_relying_party_operation parties texts instance_url now
          (or_else a.relying_party_name []) true none none)
