-- ===== src/Kyc/Selectors.antt =====
-- The selectors of src/common/kyc/index.js, over the parts of the store that they read. The clock and
-- the ids that uuid makes are arguments.
use identity_wallet.Common.{
  ℕ, ◌+◌, Bool, true, false, not, ◌&&◌, ◌||◌, Option, none, some, List, [], ◌∷◌, ◌++◌,
  if◌then◌else◌, or_else, is_some, ltb, find, suc, Result, ok, throw, type_error, ◌>>=◌, ◌==◌,
  option_eq,
}
use identity_wallet.Common.Dict.{Dict, lookup, insert}
use identity_wallet.Schema.Text.{Text, codes, text_eq}
use identity_wallet.Schema.Value.{Value}
use identity_wallet.Schema.Types.{Schema}
use identity_wallet.Identity.State.{IdAttributeType, Document, State as Identity}
use identity_wallet.Identity.Selectors.{
  FullAttribute, select_full_id_attributes_by_ids, select_id_attribute_type_by_url,
}
use identity_wallet.Kyc.State.{
  State, Config, Template, TemplateAttribute, url, details, RelyingParty,
}

-- `data` of a service in `exchanges.byId`, as far as it is read here.
pub record ServiceDetails : Type 0 where
  pub status : Option Text
  pub description : Option Text
  pub relying_party_config : Option Config
  pub kyc_template : Option (List Text)

-- The parts of the store.
pub record Store : Type 0 where
  pub kyc : State
  pub exchanges : Dict Text ServiceDetails
  pub identity : Identity
  pub wallet_id : ℕ
  pub wallet_type : Text

-- `getServiceDetails`: the templates are mapped over, and so have to be there.
unfoldable pub get_service_details : Dict Text ServiceDetails → Text → Result ServiceDetails
get_service_details exchanges name = elim (lookup name exchanges) [
  | none ↦ throw type_error
  | some d ↦ elim d.kyc_template [ none ↦ throw type_error | some ts ↦ ok d ]
]

-- `incorporationsRPDetails`, over `config.incorporationsInstance`.
unfoldable pub incorporations_rp_details : Text → ServiceDetails
incorporations_rp_details instance_url = record {
  status = some (codes "Active");
  description = some (codes "Incorporations");
  relying_party_config = some (record {
    root_endpoint = instance_url;
    endpoints =
        some ((codes "/templates/:id", instance_url ++ codes "templates/:id?format=minimum") ∷ []);
    website_url = none;
    origin = none;
  });
  kyc_template = none;
}

-- `RP_UPDATE_INTERVAL`
abbrev pub rp_update_interval : ℕ
rp_update_interval = 10800000

unfoldable pub relying_party_selector : State → Option Text → Option RelyingParty
relying_party_selector s none = none
relying_party_selector s (some name) = lookup name s.relying_parties_by_name

unfoldable pub templates_selector : State → Option Text → Option (List Template)
unfolding relying_party_selector
templates_selector s name = elim (relying_party_selector s name) [
  | none ↦ none
  | some rp ↦ some (or_else rp.templates [])
]

unfoldable pub one_template_selector : State → Option Text → Option Text → Option Template
unfolding templates_selector
one_template_selector s name id = elim (templates_selector s name) [
  | none ↦ none
  | some ts ↦ find (λ t. t.id == id) ts
]

-- The details of a service, or of the incorporations.
unfoldable pub rp_details : Text → Dict Text ServiceDetails → Text → Result ServiceDetails
unfolding get_service_details incorporations_rp_details
rp_details instance_url exchanges name =
    if name == codes "incorporations"
    then ok (incorporations_rp_details instance_url)
    else get_service_details exchanges name

module _ (instance_url : Text) where
  -- `rp.disabled` is never set.
  unfoldable pub relying_party_is_active_selector : Store → Option Text → Result Bool
  unfolding relying_party_selector rp_details
  relying_party_is_active_selector s none = ok false
  relying_party_is_active_selector s (some name) = elim (relying_party_selector s.kyc (some name)) [
    | some rp ↦ ok true
    | none ↦ do
      d ← rp_details instance_url s.exchanges name
      ok (d.status == some (codes "Active") && is_some d.relying_party_config)
  ]

  -- What the token of a session says, `none` without a token.
  abbrev pub token_exp : RelyingParty → Option ℕ
  token_exp rp = elim rp.session [
    | none ↦ none
    | some s ↦ elim s.token [ none ↦ none | some t ↦ some t.exp ]
  ]

  -- The test of a session: `exp`, in seconds, against `Date.now()`, in milliseconds.
  unfoldable pub session_should_update : ℕ → RelyingParty → Bool
  session_should_update now rp =
      not (or_else rp.authenticated false)
      || (elim (token_exp rp) [ none ↦ true | some exp ↦ ltb now exp ])

  unfoldable pub relying_party_should_update_selector : ℕ → Store → Option Text → Bool → Result Bool
  unfolding relying_party_is_active_selector session_should_update relying_party_selector
  relying_party_should_update_selector now s name authenticate = do
    active ← relying_party_is_active_selector s name
    ok (
        active && (elim (relying_party_selector s.kyc name) [
          | none ↦ true
          | some rp ↦
              ltb (rp.last_updated + rp_update_interval) now
              || (authenticate && session_should_update now rp)
        ]))

-- `{ schemaId: curr }` of a text.
abbrev pub schema_id_of : TemplateAttribute → Text
schema_id_of (url u) = u
schema_id_of (details id schema_id required title description type) = schema_id

-- `attributesBySchema`
unfoldable pub empty_by_schema :
    Dict Text (List FullAttribute) → List TemplateAttribute → Dict Text (List FullAttribute)
empty_by_schema acc [] = acc
empty_by_schema acc (a ∷ as') = empty_by_schema (insert (schema_id_of a) [] acc) as'

-- An attribute is pushed to the list of its type's URL, if the template has one.
unfoldable pub group_by_schema :
    Dict Text (List FullAttribute) → List FullAttribute → Dict Text (List FullAttribute)
group_by_schema acc [] = acc
group_by_schema acc (x ∷ xs) =
    group_by_schema
      (elim x.type.url [
        | [] ↦ acc
        | c ∷ s ↦ elim (lookup x.type.url acc) [
          | none ↦ acc
          | some ys ↦ insert x.type.url (ys ++ x ∷ []) acc
        ]
      ])
      xs

pub record Requirement : Type 0 where
  pub ui_id : Text
  pub id : Option Text
  pub required : Bool
  pub schema_id : Text
  pub options : List FullAttribute
  pub title : Option Text
  pub description : Option Text
  pub t_type : Option Text
  pub type : Option IdAttributeType

-- `tplAttr.id || uuidv1()`
abbrev ui_id_of : Text → Option Text → Text
ui_id_of fresh none = fresh
ui_id_of fresh (some []) = fresh
ui_id_of fresh (some (c ∷ s)) = c ∷ s

module _ (uuid : ℕ → Text) (identity : Identity) where
  abbrev type_of_options : Text → List FullAttribute → Option IdAttributeType
  type_of_options schema_id [] = select_id_attribute_type_by_url identity schema_id
  type_of_options schema_id (x ∷ xs) = some x.type

  unfoldable pub requirement : Dict Text (List FullAttribute) → ℕ → TemplateAttribute → Requirement
  unfolding select_id_attribute_type_by_url
  requirement groups i (url u) = record {
    ui_id = uuid i;
    id = none;
    required = false;
    schema_id = u;
    options = or_else (lookup u groups) [];
    title = none;
    description = none;
    t_type = none;
    type = type_of_options u (or_else (lookup u groups) []);
  }
  requirement groups i (details id schema_id required title description type) = record {
    ui_id = ui_id_of (uuid i) id;
    id = id;
    required = required;
    schema_id = schema_id;
    options = or_else (lookup schema_id groups) [];
    title = title;
    description = description;
    t_type = type;
    type = type_of_options schema_id (or_else (lookup schema_id groups) []);
  }

  unfoldable pub requirements_from :
      Dict Text (List FullAttribute) → ℕ → List TemplateAttribute → List Requirement
  unfolding requirement
  requirements_from groups i [] = []
  requirements_from groups i (a ∷ as') =
      requirement groups i a ∷ requirements_from groups (suc i) as'

module _ (uuid : ℕ → Text) (validate : Option Schema → Value → List Document → Bool) where
  unfoldable pub select_requirements_for_template :
      Store → Option Text → Option Text → Result (Option (List Requirement))
  unfolding one_template_selector empty_by_schema group_by_schema requirements_from
  select_requirements_for_template s name template_id =
      elim (one_template_selector s.kyc name template_id) [
        | none ↦ ok none
        | some t ↦ do
          let attributes = or_else t.attributes []
          xs ← select_full_id_attributes_by_ids validate s.identity s.wallet_id none
          let groups = group_by_schema (empty_by_schema [] attributes) xs
          ok (some (requirements_from uuid s.identity groups 0 attributes))
      ]
