-- ===== src/Kyc/Session.antt =====
-- The session with a relying party, src/main/platform/relying-party.js. The requests go out through
-- an interface, as do the signature and the decoding of JWTs (jsonwebtoken) and the joining of URLs
-- (url-join). A header that never changes (`User-Agent`) is left out.
pub mod Calls
use identity_wallet.Common.{
  ℕ, ◌/◌, Bool, true, false, not, ◌&&◌, ◌||◌, Option, none, some, List, [], ◌∷◌, ◌++◌, map,
  if◌then◌else◌, or_else, ltb, length, Result, ok, throw, type_error, error, ◌==◌, nat_eq,
}
use identity_wallet.Common.Dict.{lookup}
use identity_wallet.Schema.Text.{Text, codes, text_eq, starts_with}
use identity_wallet.Schema.Value.{Value, Fields, end, get, put, drop_field, truthy}
use identity_wallet.Schema.Types.{Schema}
use identity_wallet.Schema.Documents.{denormalize_documents_schema}
use identity_wallet.Staking.Chain.{Run, pure, fail, ◌>>=◌}
use identity_wallet.Kyc.State.{Config, Token, Session, Template, Application}

-- An attribute of an application.
pub record KycAttribute : Type 0 where
  pub id : Option Text
  pub schema_id : Text
  pub schema : Option Schema
  pub required : Bool
  pub fields : Option Fields
  pub documents : Option (List Fields)

-- An attribute as it is posted: its data are a value, and its documents are gone.
pub record PostedAttribute : Type 0 where
  pub id : Option Text
  pub schema_id : Text
  pub schema : Option Schema
  pub required : Bool
  pub posted : Value

pub data Verb : Type 0 where
  http_get http_post http_put : Verb

pub data Content : Type 0 where
  no_content : Content
  signature : Text → Content
  kyc_application : Text → List PostedAttribute → Content
  existing_application : Application → Content
  payment : Text → Content
  file : Fields → Content

pub record Request : Type 0 where
  pub verb : Verb
  pub url : Text
  pub authorization : Option Text
  pub origin : Text
  pub content : Content

-- `request`, by what each answer is read as: the JWT of a challenge or of its reply, templates, and so
-- on. The identity has a public key and signs; `undefined` may be signed.
pub record Remote (W : Type 0) : Type 0 where
  pub public_key : Run W Text
  pub sign : Option Text → Run W Text
  pub ask_jwt : Request → Run W Text
  pub ask_templates : Request → Run W (List Template)
  pub ask_template : Request → Run W Template
  pub ask_application : Request → Run W Application
  pub ask_applications : Request → Run W (List Application)
  pub ask_file : Request → Run W Value
  pub ask_done : Request → Run W (Unit {0})

-- `a || b`, where the empty text is falsy too.
abbrev pub or_text : Option Text → Option Text → Option Text
or_text none b = b
or_text (some []) b = b
or_text (some (c ∷ s)) b = some (c ∷ s)

-- A property is read of what may be `null` or `undefined`.
unfoldable pub decoded : {W A : Type 0} → Option A → Run W A
decoded none = fail type_error
decoded (some a) = pure a

abbrev pub settled : {W A : Type 0} → Result A → Run W A
settled r w = (r, w)

unfoldable pub bearer : Text → Text
bearer t = codes "Bearer " ++ t

-- `Math.floor(Date.now() / 1000) > this.data.exp`
unfoldable pub has_expired : ℕ → Token → Bool
has_expired now t = ltb t.exp (now / 1000)

unfoldable pub is_active : ℕ → Session → Bool
unfolding has_expired
is_active now s = elim s.token [ none ↦ false | some t ↦ not (has_expired now t) ]

-- `this.config.origin || 'IDW'`
unfoldable pub get_origin : Config → Text
get_origin c = elim c.origin [
  | none ↦ codes "IDW"
  | some o ↦ elim o [ [] ↦ codes "IDW" | x ∷ xs ↦ x ∷ xs ]
]

module _ (url_join : Text → Text → Text) where
  unfoldable pub get_root_endpoint : Config → Text
  unfolding starts_with
  get_root_endpoint c =
      if starts_with (codes "http:") c.root_endpoint || starts_with (codes "https:") c.root_endpoint
      then c.root_endpoint
      else url_join (or_else c.website_url []) c.root_endpoint

  unfoldable pub get_endpoint : Config → Text → Text
  unfolding get_root_endpoint
  get_endpoint c name = elim (or_else (lookup name (or_else c.endpoints [])) []) [
    | [] ↦ url_join (get_root_endpoint c) name
    | x ∷ xs ↦ x ∷ xs
  ]

  unfoldable pub endpoint : {W : Type 0} → Session → Text → Run W Text
  unfolding get_endpoint decoded
  endpoint s name = do c ← decoded s.config; pure (get_endpoint c name)

-- A request with no token, and one with `ctx.token.toString()`, which throws without a token.
unfoldable pub open_request :
    {W : Type 0} → Session → Verb → Text → Option Text → Content → Run W Request
unfolding get_origin decoded
open_request s verb url authorization content = do
  c ← decoded s.config
  pure (record {
    verb = verb;
    url = url;
    authorization = authorization;
    origin = get_origin c;
    content = content;
  })

unfoldable pub authorized : {W : Type 0} → Session → Verb → Text → Content → Run W Request
unfolding open_request bearer decoded
authorized s verb url content = do
  t ← decoded s.token
  open_request s verb url (some (bearer t.encoded)) content
