-- ===== src/Kyc/State.antt =====
-- The state and the actions of src/common/kyc/index.js, and what a relying party is made of. A field
-- that may be `undefined` is an `Option`.
use identity_wallet.Common.{ℕ, Bool, Option, none, List, [], Exception}
use identity_wallet.Common.Dict.{Dict}
use identity_wallet.Schema.Text.{Text}

-- `relying_party_config`
pub record Config : Type 0 where
  pub root_endpoint : Text
  pub endpoints : Option (Dict Text Text)
  pub website_url : Option Text
  pub origin : Option Text

-- A decoded JWT: the challenge that it holds, when it expires, in seconds, and the text it is of.
pub record Token : Type 0 where
  pub challenge : Option Text
  pub nonce : Option Text
  pub exp : ℕ
  pub encoded : Text

pub record Session : Type 0 where
  pub config : Option Config
  pub token : Option Token

-- An attribute of a template is the URL of its schema, or an object.
pub data TemplateAttribute : Type 0 where
  url : Text → TemplateAttribute
  details :
      (id : Option Text) (schema_id : Text) (required : Bool) (title description : Option Text)
      (type : Option Text)
      → TemplateAttribute

-- The id of a template as it is listed; `id` or `templateId`.
pub record Template : Type 0 where
  pub id : Option Text
  pub template_id : Option Text
  pub attributes : Option (List TemplateAttribute)

pub record Application : Type 0 where
  pub id : Text

-- `error` of a stored relying party.
pub data ErrorField : Type 0 where
  undefined_error : ErrorField
  is_true : ErrorField
  message : Exception → ErrorField

pub record RelyingParty : Type 0 where
  pub name : Text
  pub description : Option Text
  pub templates : Option (List Template)
  pub applications : Option (List Application)
  pub session : Option Session
  pub authenticated : Option Bool
  pub last_updated : ℕ
  pub error : ErrorField

pub record CurrentApplication : Type 0 where
  pub relying_party_name : Option Text
  pub template_id : Option Text
  pub return_route : Option Text
  pub cancel_route : Option Text
  pub title : Option Text
  pub description : Option Text
  pub agreement : Option Text
  pub error : Option Exception

-- `{ ...undefined }`
abbrev pub no_application : CurrentApplication
no_application = record {
  relying_party_name = none;
  template_id = none;
  return_route = none;
  cancel_route = none;
  title = none;
  description = none;
  agreement = none;
  error = none;
}

pub record State : Type 0 where
  pub relying_parties : List Text
  pub relying_parties_by_name : Dict Text RelyingParty
  pub current_application : Option CurrentApplication
  pub cancel_route : Option Text

abbrev pub initial_state : State
initial_state = record {
  relying_parties = [];
  relying_parties_by_name = [];
  current_application = none;
  cancel_route = none;
}

-- A relying party in the payload of an update is `none` for the empty object.
pub data Action : Type 0 where
  rp_update : Option RelyingParty → ErrorField → Action
  application_add : Text → Application → Action
  current_set : Option CurrentApplication → Action
  current_clear : Action
  cancel_route_set : Option Text → Action
