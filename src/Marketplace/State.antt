-- ===== src/Marketplace/State.antt =====
-- The entities, the state and the actions of src/common/marketplaces. A property that may be
-- missing is an `Option`, or a value that may be `undefined`.
use identity_wallet.Common.{ℕ, Option, none, some, List}
use identity_wallet.Common.Collection.{Collection, empty}
use identity_wallet.Schema.Text.{Text}
use identity_wallet.Schema.Value.{Value, undefined}
use identity_wallet.Staking.Contracts.{Contract, Sent}

-- What the staking service tells of a stake, or an update of it.
pub record Stake : Type 0 where
  pub id : Option Text
  pub service_owner : Value
  pub service_address : Value
  pub service_id : Value
  pub balance : Value
  pub contract : Option (Option Contract)
  pub release_date : Value

-- The names in src/main/marketplace/marketplace-transactions.js, and `new`, which only
-- `checkMpTxStatus` gives.
pub data Status : Type 0 where
  new planned pending processing success failed : Status

pub record Transaction : Type 0 where
  pub id : ℕ
  pub service_owner : Option Text
  pub service_address : Option Text
  pub service_id : Option Text
  pub action : Option Text
  pub amount : Option Text
  pub gas_price : Option ℕ
  pub gas_limit : Option ℕ
  pub network_id : Option ℕ
  pub blockchain_tx : Option (List Sent)
  pub last_status : Option Status
  pub time_stamp : Option ℕ

-- The transaction that a popup asks to confirm. The amount is in whole tokens.
pub record CurrentTransaction : Type 0 where
  pub action : Option Text
  pub gas_limit : Option ℕ
  pub gas_price : Option ℕ
  pub service_owner : Option Text
  pub service_id : Option Text
  pub amount : Option ℕ

abbrev over {ℓ} : {A : Type ℓ} → Option A → Option A → Option A
over none old = old
over (some a) old = some a

abbrev over_value : Value → Value → Value
over_value undefined old = old
over_value v old = v

-- `{ ...currentStake, ...payload, id }`
unfoldable pub merge_stake : Text → Stake → Stake → Stake
merge_stake id s p = record {
  id = some id;
  service_owner = over_value p.service_owner s.service_owner;
  service_address = over_value p.service_address s.service_address;
  service_id = over_value p.service_id s.service_id;
  balance = over_value p.balance s.balance;
  contract = over p.contract s.contract;
  release_date = over_value p.release_date s.release_date;
}

-- `{ ...state.transactionsById[payload.id], ...payload }`
unfoldable pub merge_transaction : Transaction → Transaction → Transaction
merge_transaction t p = record {
  id = p.id;
  service_owner = over p.service_owner t.service_owner;
  service_address = over p.service_address t.service_address;
  service_id = over p.service_id t.service_id;
  action = over p.action t.action;
  amount = over p.amount t.amount;
  gas_price = over p.gas_price t.gas_price;
  gas_limit = over p.gas_limit t.gas_limit;
  network_id = over p.network_id t.network_id;
  blockchain_tx = over p.blockchain_tx t.blockchain_tx;
  last_status = over p.last_status t.last_status;
  time_stamp = over p.time_stamp t.time_stamp;
}

-- `{ ...state.currentTransaction, ...payload }`, where the spread of `null` is empty.
unfoldable pub merge_current : Option CurrentTransaction → CurrentTransaction → CurrentTransaction
merge_current none p = p
merge_current (some t) p = record {
  action = over p.action t.action;
  gas_limit = over p.gas_limit t.gas_limit;
  gas_price = over p.gas_price t.gas_price;
  service_owner = over p.service_owner t.service_owner;
  service_id = over p.service_id t.service_id;
  amount = over p.amount t.amount;
}

-- The categories of `assets.json` are constants, which no action changes.
pub record State : Type 0 where
  pub transactions : Collection ℕ Transaction
  pub stakes : Collection Text Stake
  pub current_transaction : Option CurrentTransaction
  pub displayed_popup : Option Text

abbrev pub initial_state : State
initial_state = record {
  transactions = empty;
  stakes = empty;
  current_transaction = none;
  displayed_popup = none;
}

pub data Action : Type 0 where
  stakes_update_one : Stake → Action
  stakes_set : List Stake → Action
  transactions_add : Transaction → Action
  transactions_set : List Transaction → Action
  transactions_update_one : Transaction → Action
  popup_show : Option Text → Action
  current_set : CurrentTransaction → Action
  current_update : CurrentTransaction → Action
  current_clear : Action
  unknown : Action
