-- ===== src/Transactions/Operations.antt =====
-- The operations on a transaction before it is sent, and the data that is sent.
pub mod ContractData
use identity_wallet.Common.{
  ℕ, Bool, true, false, ◌&&◌, Option, none, some, List, [], ◌∷◌, ◌++◌, if◌then◌else◌, Result, ok,
  throw, Exception, ◌==◌,
}
use identity_wallet.Schema.Text.{Text, codes, text_eq}
use identity_wallet.Schema.Value.{Value, undefined, num, truthy}
use identity_wallet.Staking.Chain.{Run, pure, ◌>>=◌}
use identity_wallet.EthUtils.{pad_left, get_naked_address, sanitize_hex}
use identity_wallet.Transactions.State.{
  Transaction, Property, Signed, Action, transaction_reducer, Token, get_transaction,
}

-- What the operations call. `is_valid_address` is `isHex` and `isAddress` of the address's checksum,
-- `fee` the fee in Ether of a gas price and a limit, and `unit_to_unit` converts a number between
-- units; the balances that are updated are those of the wallet and of its tokens.
pub record Services (W : Type 0) : Type 0 where
  pub is_valid_address : Text → Result Bool
  pub get_transaction_count : Text → Run W Value
  pub get_gas_limit : Text → Text → Value → Text → Run W Value
  pub fee : Value → Value → Result Value
  pub unit_to_unit : Value → Text → Text → Value
  pub to_hex : Value → Value → Text
  pub update_wallet_with_balance : Run W (Unit {0})
  pub update_wallet_tokens_with_balance : Run W (Unit {0})
  pub add_or_update : Text → Option Text → Transaction → W → W

-- The store, what lies behind the services, and the routes that were pushed, the last one first.
pub record World (W : Type 0) : Type 0 where
  pub services : W
  pub transaction : Transaction
  pub tokens : List Token
  pub public_key : Text
  pub wallet_type : Text
  pub average : Value
  pub routes : List Text

module _ {W : Type 0} where
  abbrev pub dispatch : Action → Run (World W) (Unit {0})
  dispatch a w = (ok tt, record w { transaction = transaction_reducer w.transaction a })

  abbrev pub push : Text → Run (World W) (Unit {0})
  push route w = (ok tt, record w { routes = route ∷ w.routes })

  abbrev pub on_services : {A : Type 0} → Result A × W → World W → Result A × World W
  on_services (r, d) w = (r, record w { services = d })

  abbrev pub calling : {A : Type 0} → Run W A → Run (World W) A
  calling m w = on_services (m w.services) w

  abbrev pub get_world : Run (World W) (World W)
  get_world w = (ok w, w)

  abbrev pub settled : {A : Type 0} → Result A → Run (World W) A
  settled r w = (r, w)

  -- `try { … } catch (e) { … }`
  abbrev pub rescue : {A : Type 0} → Run (World W) A → Result A × World W → Result A × World W
  rescue handler (ok a, w) = (ok a, w)
  rescue handler (throw x, w) = handler w

  abbrev pub attempt : {A : Type 0} → Run (World W) A → Run (World W) A → Run (World W) A
  attempt body handler w = rescue handler (body w)

-- `!b ? a : b`
abbrev pub unless : Value → Value → Value
unless a b = if truthy b then b else a

abbrev pub unless_text : Text → Text → Text
unless_text a [] = a
unless_text a (c ∷ s) = c ∷ s

abbrev pub is_empty : Text → Bool
is_empty [] = true
is_empty (c ∷ s) = false

module _ {W : Type 0} (services : Services W) where
  open services use {is_valid_address, get_transaction_count, get_gas_limit, fee, to_hex}

  -- `init`, with `args` after the other properties.
  unfoldable pub init : List Property → Run (World W) (Unit {0})
  init args = dispatch (
      Action.transaction_update (
        Property.address []
        ∷ Property.amount (num 0)
        ∷ Property.eth_fee (num 0)
        ∷ Property.usd_fee (num 0)
        ∷ Property.gas_price (num 0)
        ∷ Property.gas_limit (num 0)
        ∷ Property.nouce (num 0)
        ∷ Property.signed_hex (Signed.signed [])
        ∷ Property.transaction_hash []
        ∷ Property.address_error false
        ∷ Property.sending false
        ∷ Property.status []
        ∷ args))

  -- `getGasLimit`
  unfoldable pub choose_gas_limit : Text → Text → Value → Text → Text → Run W Value
  choose_gas_limit crypto_currency address amount wallet_address token_contract =
      if crypto_currency == codes "ETH"
      then pure (num 21000)
      else get_gas_limit token_contract address amount wallet_address

  -- The new values, which are falsy where there are none, go before those of the store.
  unfoldable pub update_fee : Text → Value → Value → Value → Run (World W) (Unit {0})
  unfolding choose_gas_limit get_transaction
  update_fee new_address new_amount new_gas_price new_gas_limit = do
    w ← get_world
    let t = w.transaction
    let address = unless_text t.address new_address
    let amount = unless t.amount new_amount
    let gas_price = unless (unless w.average t.gas_price) new_gas_price
    let limit = unless t.gas_limit new_gas_limit
    let change = do
      nonce ← calling (get_transaction_count w.public_key)
      gas_limit ←
          (if truthy limit
            then pure limit
            else calling (
                choose_gas_limit t.crypto_currency address amount w.public_key
                  (get_transaction w.tokens t).contract_address))
      eth_fee ← settled (fee gas_price gas_limit)
      dispatch (
          Action.transaction_update (
            Property.eth_fee eth_fee
            ∷ Property.gas_price gas_price
            ∷ Property.gas_limit gas_limit
            ∷ Property.nonce nonce
            ∷ []))
    if is_empty address then pure tt else if truthy amount then change else pure tt

  -- An exception is logged.
  unfoldable pub set_transaction_fee : Text → Value → Value → Value → Run (World W) (Unit {0})
  unfolding update_fee
  set_transaction_fee new_address new_amount new_gas_price new_gas_limit =
      attempt (update_fee new_address new_amount new_gas_price new_gas_limit) (pure tt)

  unfoldable pub set_address : Text → Run (World W) (Unit {0})
  unfolding set_transaction_fee
  set_address address =
      attempt
        (do
          valid ← settled (is_valid_address address)
          if valid
              then (do
                set ← dispatch (Action.transaction_update (Property.address address ∷ []))
                cleared ← dispatch (Action.address_error_update false)
                set_transaction_fee address undefined undefined undefined)
              else dispatch (Action.address_error_update true))
        (dispatch (Action.address_error_update true))

  unfoldable pub set_amount : Value → Run (World W) (Unit {0})
  unfolding set_transaction_fee
  set_amount amount = do
    set ← dispatch (Action.transaction_update (Property.amount amount ∷ []))
    set_transaction_fee [] amount undefined undefined

  unfoldable pub set_gas_price : Value → Run (World W) (Unit {0})
  unfolding set_transaction_fee
  set_gas_price gas_price = do
    set ← dispatch (Action.transaction_update (Property.gas_price gas_price ∷ []))
    set_transaction_fee [] undefined gas_price undefined

  unfoldable pub set_limit_price : Value → Run (World W) (Unit {0})
  unfolding set_transaction_fee
  set_limit_price gas_limit = do
    set ← dispatch (Action.transaction_update (Property.gas_limit gas_limit ∷ []))
    set_transaction_fee [] undefined undefined gas_limit

  unfoldable pub set_crypto_currency : Text → Run (World W) (Unit {0})
  set_crypto_currency c = dispatch (Action.transaction_update (Property.crypto_currency c ∷ []))

-- `transferHex`
abbrev pub transfer_hex : Text
transfer_hex = codes "0xa9059cbb"

-- The data of a transfer of tokens; `to_hex value decimal` is the amount in the smallest unit, in
-- hexadecimal digits.
unfoldable pub generate_contract_data : (Value → Value → Text) → Text → Value → Value → Text
unfolding pad_left get_naked_address
generate_contract_data to_hex to_address value decimal =
    transfer_hex
    ++ pad_left (get_naked_address to_address) 64 (codes "0")
    ++ pad_left (to_hex value decimal) 64 (codes "0")

-- `transactionObject`; there is no data to send Ether.
pub record TransactionObject : Type 0 where
  pub nonce : Value
  pub gas_price : Value
  pub gas_limit : Value
  pub to : Text
  pub value : Value
  pub calldata : Option Text

unfoldable pub transaction_object : {W : Type 0} → Services W → World W → TransactionObject
unfolding sanitize_hex generate_contract_data get_transaction
transaction_object services w =
    let t = w.transaction in
    let token = get_transaction w.tokens t in
    let gas_price = services.unit_to_unit t.gas_price (codes "gwei") (codes "wei") in
    if t.crypto_currency == codes "ETH"
    then record {
      nonce = t.nonce;
      gas_price = gas_price;
      gas_limit = t.gas_limit;
      to = sanitize_hex t.address;
      value = services.unit_to_unit t.amount (codes "ether") (codes "wei");
      calldata = none;
    }
    else record {
      nonce = t.nonce;
      gas_price = gas_price;
      gas_limit = t.gas_limit;
      to = sanitize_hex token.contract_address;
      value = num 0;
      calldata = some (
          sanitize_hex
            (generate_contract_data services.to_hex t.address t.amount token.token_decimal));
    }
