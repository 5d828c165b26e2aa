-- ===== src/TxHistory/Processing.antt =====
-- A transaction as it is kept: `processTx` and `processTxHistory`. Upper and lower case are those of
-- ASCII. Amounts are no natural numbers, so the number of a value, `+v`, and the division by powers of
-- ten, which is BigNumber's, are arguments. `NaN` stands for `undefined`.
use identity_wallet.Common.{
  ℕ, Bool, not, ◌&&◌, Option, none, some, List, [], ◌∷◌, ◌++◌, map, if◌then◌else◌, is_some,
  contains, Result, ok, type_error, nat_eq,
}
use identity_wallet.Common.Dict.{Dict}
use identity_wallet.Schema.Text.{Text, codes, text_eq}
use identity_wallet.Schema.Value.{
  Value, null, num, str, Fields, end, field, get, put, truthy, to_text, strict_eq,
}
use identity_wallet.Staking.Chain.{Run, pure, fail, ◌>>=◌, caught}
use identity_wallet.EthUtils.{upper, lower}
use identity_wallet.AddressBook.State.{parse_int}
use identity_wallet.TxHistory.Formats.{
  Txs, Services, api_url, parse_hex, number, prop, processed_key, known_keys, integer_keys,
}

unfoldable pub copy_keys : List Text → Value → Fields → Fields
unfolding prop processed_key
copy_keys [] tx o = o
copy_keys (k ∷ ks) tx o = copy_keys ks tx (put (processed_key k) (prop tx k) o)

-- `v.toUpperCase()` and `v.toLowerCase()`
unfoldable pub to_upper_case : {W : Type 0} → Value → Run W Value
unfolding upper
to_upper_case (str s) = pure (str (map upper s))
to_upper_case _ = fail type_error

unfoldable pub to_lower_case : {W : Type 0} → Value → Run W Value
unfolding lower
to_lower_case (str s) = pure (str (map lower s))
to_lower_case _ = fail type_error

unfoldable pub has_contract_info : Fields → Bool
has_contract_info o =
    truthy (get (codes "tokenDecimal") o)
    && truthy (get (codes "tokenSymbol") o)
    && truthy (get (codes "tokenName") o)

pub record ContractInfo : Type 0 where
  pub token_decimal : Value
  pub token_symbol : Value
  pub token_name : Value

-- `Object.assign(processedTx, contractInfo)`
unfoldable pub assign_info : ContractInfo → Fields → Fields
assign_info i o =
    put (codes "tokenName") i.token_name
      (put (codes "tokenSymbol") i.token_symbol (put (codes "tokenDecimal") i.token_decimal o))

module _ {W : Type 0} (services : Services W) (network_id now : ℕ) where
  open services use {
    get_result, contract_value, add_or_update, unary_plus, eth_amount, token_amount,
  }

  -- `!txs.token && +txs.eth.value === 0`
  unfoldable pub is_failed_erc20_token_tx : Txs → Bool
  unfolding prop
  is_failed_erc20_token_tx txs =
      not (truthy txs.token) && strict_eq (unary_plus (prop txs.eth (codes "value"))) (num 0)

  unfoldable pub get_transaction_receipt : Value → Run W Value
  unfolding api_url
  get_transaction_receipt txhash = get_result (
      api_url network_id
      ++ codes "?module=proxy&action=eth_getTransactionReceipt&txhash="
      ++ to_text txhash)

  unfoldable pub get_tx_receipt_status : Value → Run W Value
  unfolding get_transaction_receipt prop parse_hex
  get_tx_receipt_status hash = do
    receipt ← get_transaction_receipt hash
    pure (
        if truthy receipt && truthy (prop receipt (codes "status"))
        then number (parse_hex (prop receipt (codes "status")))
        else num 0)

  abbrev given : {A : Type 0} → A × W → Result A × W
  given (a, w) = (ok a, w)

  -- `null` if a call throws.
  unfoldable pub get_contract_info : Value → Run W (Option ContractInfo)
  get_contract_info address w = given (
      caught none (
        (do
          decimal ← contract_value address (codes "decimals")
          symbol ← contract_value address (codes "symbol")
          name ← contract_value address (codes "name")
          pure
              (some (record { token_decimal = decimal; token_symbol = symbol; token_name = name })))
          w))

  -- The fields with the info of the contract, nothing if it has none.
  unfoldable pub with_contract_info : Fields → Run W (Option Fields)
  unfolding get_contract_info assign_info
  with_contract_info o = do
    found ← get_contract_info (get (codes "contractAddress") o)
    pure (elim found [ none ↦ none | some i ↦ some (assign_info i o) ])

  -- The branch `if (txs.token)`, with the amount divided.
  unfoldable pub process_value : Txs → Fields → Run W (Option Fields)
  unfolding with_contract_info has_contract_info prop
  process_value txs o =
      let o' =
        put (codes "txReceiptStatus")
          (if truthy txs.eth then prop txs.eth (codes "txReceiptStatus") else null) o in
      let divide = λ (p : Fields).
        put (codes "value") (token_amount (get (codes "value") p) (get (codes "tokenDecimal") p))
          p in
      let completed = do
        found ← with_contract_info o'
        pure (elim found [ none ↦ none | some p ↦ some (divide p) ])
      in if truthy txs.token
        then (if has_contract_info o' then pure (some (divide o')) else completed)
        else pure (some (put (codes "value") (eth_amount (get (codes "value") o)) o))

  -- `!isNaN(parseInt(status)) ? status : await this.getTxReceiptStatus(hash)`
  unfoldable pub final_status : Fields → Run W Value
  unfolding parse_int get_tx_receipt_status
  final_status o =
      let status = get (codes "txReceiptStatus") o in
      if is_some (parse_int (to_text status))
      then pure status
      else get_tx_receipt_status (get (codes "hash") o)

  -- A transfer of tokens that failed, of which there is only the transaction of Ether.
  unfoldable pub process_failed : Text → Txs → Fields → Run W (Option Fields)
  unfolding is_failed_erc20_token_tx with_contract_info
  process_failed wallet_address txs o =
      let other =
        if strict_eq (get (codes "from") o) (str wallet_address)
        then get (codes "to") o
        else get (codes "from") o in
      let failed =
        with_contract_info
          (put (codes "contractAddress") other (put (codes "txReceiptStatus") (num 0) o)) in
      if is_failed_erc20_token_tx txs then failed else pure (some o)

  abbrev or_null : Value → Value
  or_null v = if truthy v then v else null

  -- What follows the division, from the symbol of the token on.
  unfoldable pub finish_tx : Text → Txs → Fields → Run W (Option Fields)
  unfolding to_upper_case to_lower_case final_status process_failed
  finish_tx wallet_address txs o = do
    let symbol = get (codes "tokenSymbol") o
    upper_symbol ← (if truthy symbol then to_upper_case symbol else pure null)
    from ← to_lower_case (get (codes "from") o)
    to ← to_lower_case (get (codes "to") o)
    let o' = put (codes "to") to (
        put (codes "from") from (
          put (codes "timeStamp")
            (unary_plus (str (to_text (get (codes "timeStamp") o) ++ codes "000")))
            (put (codes "tokenSymbol") upper_symbol o)))
    status ← final_status o'
    processed ← process_failed wallet_address txs (put (codes "txReceiptStatus") status o')
    pure (elim processed [
      | none ↦ none
      | some p ↦ some (put (codes "contractAddress") (or_null (get (codes "contractAddress") p)) p)
    ])

  abbrev finish_found : Text → Txs → Option Fields → Run W (Option Fields)
  finish_found wallet_address txs none = pure none
  finish_found wallet_address txs (some o) = finish_tx wallet_address txs o

  -- `null` for what is no normal transaction, and for a contract without info.
  unfoldable pub process_tx : Txs → Text → Run W (Option Fields)
  unfolding copy_keys prop process_value finish_tx
  process_tx txs wallet_address =
      let tx = if truthy txs.token then txs.token else txs.eth in
      let processed = do
        found ← process_value txs (
            copy_keys known_keys tx (
              field (codes "networkId") (num network_id) (field (codes "createdAt") (num now) end)))
        finish_found wallet_address txs found
      in if truthy (prop tx (codes "from")) && truthy (prop tx (codes "to"))
        then processed
        else pure none

  -- `typeof val === 'string' && KEY_TYPES_MAP[key] === 'integer'`
  unfoldable pub convert_integers : Fields → Fields
  convert_integers end = end
  convert_integers (field k v o) =
      field k
        (elim v [
          | str s ↦ if contains integer_keys k then unary_plus (str s) else str s
          | other ↦ other
        ])
        (convert_integers o)

  abbrev store_found : Option Fields → Run W (Unit {0})
  unfolding convert_integers
  store_found none = pure tt
  store_found (some o) = add_or_update (convert_integers o)

  unfoldable pub process_tx_history : Text → Dict Text Txs → Run W (Unit {0})
  unfolding process_tx convert_integers
  process_tx_history wallet_address [] = pure tt
  process_tx_history wallet_address ((hash, txs) ∷ rest) = do
    found ← process_tx txs wallet_address
    stored ← store_found found
    process_tx_history wallet_address rest
