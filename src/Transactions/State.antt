-- ===== src/Transactions/State.antt =====
-- The transaction in the store, its actions and its reducer, and what `getTransaction` adds to it.
use identity_wallet.Common.{Bool, true, false, Option, none, some, List, [], ◌∷◌, filter, ◌==◌}
use identity_wallet.Schema.Text.{Text, text_eq}
use identity_wallet.Schema.Value.{Value, undefined, num}

-- `signedHex`: a text, or the promise of a row of the history.
pub data Signed : Type 0 where
  signed : Text → Signed
  row_promise : Signed

-- Amounts, prices and counts are as the user or the chain gave them. `nouce` is what `init` writes,
-- `nonce` what sending reads.
pub record Transaction : Type 0 where
  pub address : Text
  pub amount : Value
  pub eth_fee : Value
  pub usd_fee : Value
  pub gas_price : Value
  pub gas_limit : Value
  pub nouce : Value
  pub nonce : Value
  pub signed_hex : Signed
  pub transaction_hash : Text
  pub address_error : Bool
  pub sending : Bool
  pub status : Option Text
  pub crypto_currency : Text

abbrev pub initial_state : Transaction
initial_state = record {
  address = [];
  amount = num 0;
  eth_fee = num 0;
  usd_fee = num 0;
  gas_price = num 0;
  gas_limit = num 0;
  nouce = num 0;
  nonce = undefined;
  signed_hex = signed [];
  transaction_hash = [];
  address_error = false;
  sending = false;
  status = none;
  crypto_currency = [];
}

-- One property of the payload of an update.
pub data Property : Type 0 where
  address : Text → Property
  amount : Value → Property
  eth_fee : Value → Property
  usd_fee : Value → Property
  gas_price : Value → Property
  gas_limit : Value → Property
  nouce : Value → Property
  nonce : Value → Property
  signed_hex : Signed → Property
  transaction_hash : Text → Property
  address_error : Bool → Property
  sending : Bool → Property
  status : Text → Property
  crypto_currency : Text → Property

unfoldable pub set_property : Property → Transaction → Transaction
set_property (Property.address v) t = record t { address = v }
set_property (Property.amount v) t = record t { amount = v }
set_property (Property.eth_fee v) t = record t { eth_fee = v }
set_property (Property.usd_fee v) t = record t { usd_fee = v }
set_property (Property.gas_price v) t = record t { gas_price = v }
set_property (Property.gas_limit v) t = record t { gas_limit = v }
set_property (Property.nouce v) t = record t { nouce = v }
set_property (Property.nonce v) t = record t { nonce = v }
set_property (Property.signed_hex v) t = record t { signed_hex = v }
set_property (Property.transaction_hash v) t = record t { transaction_hash = v }
set_property (Property.address_error v) t = record t { address_error = v }
set_property (Property.sending v) t = record t { sending = v }
set_property (Property.status v) t = record t { status = some v }
set_property (Property.crypto_currency v) t = record t { crypto_currency = v }

-- `{ ...state, ...payload }`
unfoldable pub set_properties : List Property → Transaction → Transaction
unfolding set_property
set_properties [] t = t
set_properties (p ∷ ps) t = set_properties ps (set_property p t)

pub data Action : Type 0 where
  transaction_update : List Property → Action
  address_error_update : Bool → Action
  trezor_tx_sign : Signed → Action

-- `!!payload`
unfoldable pub is_signed : Signed → Bool
is_signed (signed []) = false
is_signed (signed (c ∷ s)) = true
is_signed row_promise = true

unfoldable pub transaction_reducer : Transaction → Action → Transaction
unfolding set_properties is_signed
transaction_reducer t (Action.transaction_update ps) = set_properties ps t
transaction_reducer t (Action.address_error_update e) = record t { address_error = e }
transaction_reducer t (Action.trezor_tx_sign s) = record t { signed_hex = s; sending = is_signed s }

-- A token of the wallet, as far as sending reads it; the first one is Ether.
pub record Token : Type 0 where
  pub symbol : Text
  pub balance : Value
  pub address : Text
  pub decimal : Value

-- What `getTransaction` writes beside the transaction's own properties, but for the prices in
-- dollars.
pub record TokenOf : Type 0 where
  pub balance : Value
  pub contract_address : Text
  pub token_decimal : Value

unfoldable pub get_transaction : List Token → Transaction → TokenOf
get_transaction tokens t = elim (filter (λ k. k.symbol == t.crypto_currency) tokens) [
  | [] ↦ record { balance = num 0; contract_address = []; token_decimal = num 18 }
  | k ∷ ks ↦ record { balance = k.balance; contract_address = k.address; token_decimal = k.decimal }
]
