-- ===== src/Login/State.antt =====
-- Requests, replies, and what the service and a connection keep.
use identity_wallet.Common.{ℕ, Bool, Option, List}
use identity_wallet.Common.{Result, Exception}
use identity_wallet.Common.Dict.{Dict}
use identity_wallet.Schema.Text.{Text}
use identity_wallet.Schema.Value.{Value, Fields}
use identity_wallet.Schema.Types.{Schema}
use identity_wallet.Staking.Chain.{Run}

pub record Website : Type 0 where
  pub name : Text
  pub url : Text

-- The `config` of a relying party; the session reads more of it than the website.
pub record Config : Type 0 where
  pub website : Option Website
  pub rest : Fields

-- An attribute that a user signs up with.
pub record SignupAttribute : Type 0 where
  pub url : Text
  pub schema : Schema
  pub value : Value

-- The payload of a request; which fields it has depends on the type.
pub record Payload : Type 0 where
  pub public_key : Option Text
  pub password : Option Text
  pub config : Option Config
  pub requested_attributes : Option (List Value)
  pub attributes : Option (List SignupAttribute)

-- A parsed message, with the `id` of its `meta` if that is not falsy.
pub record Request : Type 0 where
  pub type : Option Text
  pub id : Option Text
  pub payload : Option Payload

pub record WalletInfo : Type 0 where
  pub public_key : Text
  pub unlocked : Bool
  pub profile : Text
  pub signed_up : Bool

pub record SentAttribute : Type 0 where
  pub url : Text
  pub name : Text
  pub value : Value
  pub schema : Schema
  pub id : ℕ

pub data Body : Type 0 where
  wallets : List WalletInfo → Body
  unlock : Option Text → Bool → Text → Option Bool → Body
  attributes : Option Text → List SentAttribute → Body
  login : Value → Body
  signed_up : Body
  -- the code and the message of an error
  problem : Text → Text → Body
  unknown_request : Body

-- A message on the socket. Its `src` is always the same.
pub record Reply : Type 0 where
  pub type : Option Text
  pub id : Text
  pub body : Body

pub record Wallet : Type 0 where
  pub id : ℕ
  pub public_key : Text
  pub profile : Text

-- An attribute as the identity returns it. Documents are objects with a `buffer`.
pub record FetchedAttribute : Type 0 where
  pub id : ℕ
  pub name : Text
  pub url : Text
  pub schema : Schema
  pub value : Value
  pub documents : List Fields

pub record RpAttribute : Type 0 where
  pub id : Text
  pub schema : Schema
  pub value : Value
  pub documents : List Fields

pub record LoginAttempt : Type 0 where
  pub website_name : Text
  pub website_url : Text
  pub signup : Bool
  pub success : Bool
  pub error_code : Option Text
  pub error_message : Option Text

pub record ActionLog : Type 0 where
  pub wallet_id : ℕ
  pub title : Text
  pub content : Text

-- `WSConnection`, with what it has sent, the oldest first.
pub record Connection (I : Type 0) : Type 0 where
  pub identities : Dict Text I
  pub msg_id : ℕ
  pub sent : List Reply

-- The wallets, identities of type `I`, sessions of type `S` and the log, over a state `D`, and the
-- texts of exceptions and buffers.
pub record Services (D I S : Type 0) : Type 0 where
  pub find_all : Run D (List Wallet)
  pub find_by_public_key : Option Text → Run D (Option Wallet)
  pub has_signed_up_to : Wallet → Text → Run D Bool
  pub unlock_identity : Wallet → Option Text → Run D I
  pub get_attributes_by_types : I → List Value → Run D (List FetchedAttribute)
  pub establish : Option Config → I → Run D S
  pub get_user_login_payload : S → Run D Value
  pub create_user : S → List RpAttribute → Run D (Unit {0})
  pub add_login_attempt : Wallet → LoginAttempt → Run D (Unit {0})
  pub action_logs_add : ActionLog → Run D (Unit {0})
  pub message_of : Exception → Text
  pub to_base64 : Value → Result Value
  pub from_base64 : Value → Result Value

pub record World (D I : Type 0) : Type 0 where
  pub services : D
  pub connection : Connection I
