-- ===== src/TxHistory/Formats.antt =====
-- The transactions of the remote service, the keys that are kept of them, and the numbers in its answers:
-- the constants of tx-history-service.js.
use identity_wallet.Common.{
  ℕ, ◌+◌, ◌*◌, ◌-◌, leb, ◌&&◌, ◌||◌, Option, none, some, List, [], ◌∷◌, if◌then◌else◌, ◌==◌, nat_eq,
}
use identity_wallet.Schema.Text.{Text, codes, text_eq, starts_with, drop_prefix, is_digit}
use identity_wallet.Schema.Value.{Value, undefined, num, obj, Fields, get, to_text}
use identity_wallet.Staking.Chain.{Run}

-- What the remote service returned for a hash: a transaction of Ether, one of tokens, or both.
pub record Txs : Type 0 where
  pub eth : Value
  pub token : Value

-- `get_result` is `makeRequest` through the queue: the `result` of the answer to a request of a URL.
-- `contract_value` is a call of a method of a contract without arguments, `transaction_count` the call of
-- `getTransactionCount` for an address and a block.
pub record Services (W : Type 0) : Type 0 where
  pub get_result : Text → Run W Value
  pub contract_value : Value → Text → Run W Value
  pub transaction_count : Text → Text → Run W Value
  pub add_or_update : Fields → Run W (Unit {0})
  pub unary_plus : Value → Value
  pub eth_amount : Value → Value
  pub token_amount : Value → Value → Value

-- The URL of the remote service for the main network, and for the test network otherwise.
unfoldable pub api_url : ℕ → Text
api_url chain_id =
    if chain_id == 1
    then codes "https://api.etherscan.io/api"
    else codes "http://api-ropsten.etherscan.io/api"

-- `parseInt(v, 16)`, of digits after an optional `0x`; none for `NaN`.
unfoldable pub hex_digit : ℕ → Option ℕ
hex_digit c =
    if is_digit c
    then some (c - 48)
    else if leb 97 c && leb c 102
    then some (c - 87)
    else if leb 65 c && leb c 70
    then some (c - 55)
    else none

-- The value of the run of hexadecimal digits in front, after `acc`.
unfoldable pub hex_from : ℕ → Text → ℕ
unfolding hex_digit
hex_from acc [] = acc
hex_from acc (c ∷ s) = elim (hex_digit c) [ none ↦ acc | some d ↦ hex_from (acc * 16 + d) s ]

unfoldable pub hex_number : Text → Option ℕ
unfolding hex_digit hex_from
hex_number [] = none
hex_number (c ∷ s) = elim (hex_digit c) [ none ↦ none | some d ↦ some (hex_from d s) ]

unfoldable pub parse_hex : Value → Option ℕ
unfolding starts_with hex_number
parse_hex v =
    let s = to_text v in
    hex_number (
      if starts_with (codes "0x") s || starts_with (codes "0X") s
      then drop_prefix (codes "0x") s
      else s)

abbrev pub number : Option ℕ → Value
number none = undefined
number (some n) = num n

-- `v[key]`, of what is neither `undefined` nor `null`.
unfoldable pub prop : Value → Text → Value
prop (obj o) key = get key o
prop _ key = undefined

-- `KEY_MAP[key] ? KEY_MAP[key] : key`
unfoldable pub processed_key : Text → Text
processed_key key = if key == codes "txreceipt_status" then codes "txReceiptStatus" else key

-- `KNOWN_KEYS`
abbrev pub known_keys : List Text
known_keys =
    codes "blockNumber"
    ∷ codes "timeStamp"
    ∷ codes "hash"
    ∷ codes "nonce"
    ∷ codes "blockHash"
    ∷ codes "transactionIndex"
    ∷ codes "from"
    ∷ codes "to"
    ∷ codes "value"
    ∷ codes "gas"
    ∷ codes "gasPrice"
    ∷ codes "isError"
    ∷ codes "txreceipt_status"
    ∷ codes "input"
    ∷ codes "contractAddress"
    ∷ codes "cumulativeGasUsed"
    ∷ codes "gasUsed"
    ∷ codes "confirmations"
    ∷ codes "tokenName"
    ∷ codes "tokenSymbol"
    ∷ codes "tokenDecimal"
    ∷ []

-- The keys of `KEY_TYPES_MAP`, which are all integers.
abbrev pub integer_keys : List Text
integer_keys =
    codes "blockNumber"
    ∷ codes "value"
    ∷ codes "transactionIndex"
    ∷ codes "gas"
    ∷ codes "gasPrice"
    ∷ codes "cumulativeGasUsed"
    ∷ codes "gasUsed"
    ∷ codes "confirmations"
    ∷ codes "isError"
    ∷ codes "txReceiptStatus"
    ∷ codes "tokenDecimal"
    ∷ []
