-- ===== src/Web3/Sending.antt =====
-- `handleTicket`, `waitForTicket` and `sendSignedTransaction`. Numbers of gas are whole, and
-- `Math.round` leaves them as they are. The node and the signature are an interface.
pub mod Nonces
use identity_wallet.Common.{
  ℕ, ◌+◌, Bool, true, false, not, ◌&&◌, ◌||◌, Option, none, some, List, [], ◌∷◌, if◌then◌else◌,
  Result, ok, throw, Exception, error, ◌==◌, nat_eq,
}
use identity_wallet.Schema.Text.{Text, codes, text_eq, replace}
use identity_wallet.Schema.Value.{
  Value, undefined, null, num, bool, str, arr, obj, Fields, end, field, get, put, spread, truthy,
  to_text, strict_eq,
}
use identity_wallet.Staking.Chain.{Run, pure, fail, ◌>>=◌, continue}
use identity_wallet.Wallet.Store.{assign}

-- `web3.eth`, a contract at an address, or one of its methods with arguments. An absent ABI is the
-- default one.
pub record Target : Type 0 where
  pub contract_address : Option Text
  pub custom_abi : Option Text
  pub call : Option (Text × List Value)

-- `customWeb3` is the name of another connection.
pub record Ticket : Type 0 where
  pub contract_address : Option Text
  pub contract_method : Option Text
  pub method : Text
  pub custom_web3 : Option Text
  pub custom_abi : Option Text
  pub contract_method_args : List Value
  pub wallet : Option Fields
  pub args : List Value
  pub once_listener_name : Option Text

-- What a promise comes to: the first event with a name, if one is given, or its result.
abbrev pub Pending : Type 0 → Type 0
Pending W = Option Text → Run W Value

-- The object that a ticket is handled to: the promise under `ticketPromise`, if there is one, and the
-- other properties. A receipt, which is spread into it, has no property of that name.
pub record Handled (W : Type 0) : Type 0 where
  pub ticket_promise : Option (Pending W)
  pub rest : Fields

-- `invoke` and `send_signed` start a call, which may throw, and give its promise; `send` waits for the
-- result. `sign` signs a transaction with a key in hexadecimal digits.
pub record Node (W : Type 0) : Type 0 where
  pub invoke : Option Text → Target → Text → List Value → Run W (Pending W)
  pub send : Target → List Value → Run W Value
  pub send_signed : Text → Run W (Pending W)
  pub get_gas_price : Run W Value
  pub estimate_gas : Target → Value → Value → Run W Value
  pub encode_abi : Target → Run W Value
  pub get_transaction_count : Value → Run W ℕ
  pub to_hex : Value → Value
  pub sign : Fields → Text → Result Text

-- The wallet of the store, the nonce of the last transaction, and what lies behind the node.
pub record World (W : Type 0) : Type 0 where
  pub node : W
  pub wallet : Fields
  pub nonce : ℕ

module _ {W : Type 0} where
  abbrev on_node : {A : Type 0} → Result A × W → World W → Result A × World W
  on_node (r, n) w = (r, record w { node = n })

  abbrev pub calling : {A : Type 0} → Run W A → Run (World W) A
  calling m w = on_node (m w.node) w

  abbrev pub require : Bool → Exception → Run (World W) (Unit {0})
  require true x = pure tt
  require false x = fail x

  -- `if (!opts[key]) opts[key] = await call`
  unfoldable pub or_ask : Value → Run (World W) Value → Run (World W) Value
  or_ask v ask = if truthy v then pure v else ask

  -- `{ ticketPromise }`
  abbrev pub promised : Pending W → Handled W
  promised promise = record { ticket_promise = some promise; rest = end }

  -- `{ ...receipt }`
  abbrev pub spread_receipt : Value → Handled W
  unfolding spread
  spread_receipt receipt = record { ticket_promise = none; rest = spread receipt }

  -- A promise that fails resets the nonce.
  abbrev pub reset : Result Value × World W → Result Value × World W
  reset (ok v, w) = (ok v, w)
  reset (throw x, w) = (throw x, record w { nonce = 0 })

  abbrev pub await_promise : Option Text → Option (Pending W) → Run (World W) Value
  await_promise name none w = (throw (error "Failed to process ticket"), w)
  await_promise name (some promise) w = reset (calling (promise name) w)

-- The wallet that is given, or the one of the store.
abbrev pub wallet_used : Option Fields → Fields → Fields
wallet_used none stored = stored
wallet_used (some o) stored = o

-- `{ ...(args || [])[0] }`
unfoldable pub options_of : List Value → Fields
unfolding spread
options_of [] = end
options_of (v ∷ vs) = spread v

unfoldable pub target_of : Ticket → Target
target_of t = record {
  contract_address = t.contract_address;
  custom_abi = elim t.contract_address [ none ↦ none | some a ↦ t.custom_abi ];
  call = elim t.contract_address [
    | none ↦ none
    | some a ↦ elim t.contract_method [ none ↦ none | some m ↦ some (m, t.contract_method_args) ]
  ];
}

abbrev pub address_value : Option Text → Value
address_value none = undefined
address_value (some a) = str a

-- `(wallet.profile && wallet.profile !== 'local') || wallet.isHardwareWallet`
unfoldable pub signs_itself : Fields → Bool
signs_itself wallet =
    (truthy (get (codes "profile") wallet)
      && not (strict_eq (get (codes "profile") wallet) (str (codes "local"))))
    || truthy (get (codes "isHardwareWallet") wallet)

unfoldable pub next_nonce : ℕ → ℕ → ℕ
next_nonce last count = if count == last then count + 1 else count

module _ {W : Type 0} (node : Node W) (chain_id : ℕ) where
  unfoldable pub raw_tx : ℕ → Target → Value → Fields → Fields
  unfolding assign
  raw_tx nonce target call_data opts =
      assign
        (field (codes "nonce") (node.to_hex (num nonce)) (
          field (codes "to") (address_value target.contract_address) (
            field (codes "value") (node.to_hex (num 0))
              (field (codes "data") call_data (field (codes "chainId") (num chain_id) end)))))
        opts

  abbrev keep_nonce : ℕ → Result Text → Run (World W) (Pending W)
  keep_nonce nonce (throw x) w = (throw x, w)
  keep_nonce nonce (ok serialized) w =
      calling (node.send_signed serialized) (record w { nonce = nonce })

  -- The nonce is kept once the transaction is signed.
  unfoldable pub sign_with : Target → Value → Fields → Fields → ℕ → Run (World W) (Pending W)
  unfolding raw_tx next_nonce replace
  sign_with target call_data opts wallet count w =
      let nonce = next_nonce w.nonce count in
      let key = replace (codes "0x") [] (to_text (get (codes "privateKey") wallet)) in
      keep_nonce nonce (node.sign (raw_tx nonce target call_data opts) key) w

  unfoldable pub sign_and_send : Target → Fields → Fields → Run (World W) (Pending W)
  unfolding or_ask sign_with
  sign_and_send target opts wallet = do
    let from = get (codes "from") opts
    gas_price ← or_ask (get (codes "gasPrice") opts) (calling node.get_gas_price)
    let priced = put (codes "gasPrice") (node.to_hex gas_price) opts
    gas ←
        or_ask (get (codes "gas") priced)
          (calling (node.estimate_gas target from (node.to_hex (num 0))))
    call_data ← calling (node.encode_abi target)
    count ← calling (node.get_transaction_count from)
    sign_with target call_data (put (codes "gas") gas priced) wallet count

  -- A wallet that signs itself: the call returns the promise of `send`, which an async function waits
  -- for, so that what it returns is the receipt, in place of an object with a promise.
  unfoldable pub send_itself : Target → List Value → Run (World W) (Handled W)
  unfolding spread
  send_itself target args = do
    receipt ← calling (node.send target args)
    pure (spread_receipt receipt)

  unfoldable pub send_here : Target → Fields → Fields → Run (World W) (Handled W)
  unfolding sign_and_send
  send_here target opts wallet = do
    unlocked ←
        require (truthy (get (codes "privateKey") wallet))
          (error "the wallet provided is not unlocked")
    promise ← sign_and_send target opts wallet
    pure (promised promise)

  unfoldable pub send_signed_transaction :
      Target → List Value → Option Fields → Run (World W) (Handled W)
  unfolding options_of signs_itself send_itself send_here
  send_signed_transaction target args given = do
    let opts = options_of args
    addressed ← require (truthy (get (codes "from") opts)) (error "src address is not defined")
    stored ← (λ w. (ok w.wallet, w))
    let wallet = wallet_used given stored
    owned ←
        require (strict_eq (get (codes "publicKey") wallet) (get (codes "from") opts))
          (error "provided wallet does not contain requested address")
    (if signs_itself wallet then send_itself target args else send_here target opts wallet)

  unfoldable pub handle_ticket : Ticket → Run (World W) (Handled W)
  unfolding target_of send_signed_transaction
  handle_ticket t =
      if t.method == codes "send"
      then send_signed_transaction (target_of t) t.args t.wallet
      else (do
        promise ← calling (node.invoke t.custom_web3 (target_of t) t.method t.args)
        pure (promised promise))

  unfoldable pub wait_for_ticket : Ticket → Run (World W) Value
  unfolding handle_ticket
  wait_for_ticket t = do
    handled ← handle_ticket t
    await_promise t.once_listener_name handled.ticket_promise
