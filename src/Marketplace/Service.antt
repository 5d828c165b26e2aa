-- ===== src/Marketplace/Service.antt =====
-- `MarketplaceService` of src/main/marketplace/marketplace-service.js, over the staking service and
-- the table of marketplace transactions, which objection manages.
pub mod Estimates
use identity_wallet.Common.{
  ℕ, ◌+◌, ◌*◌, ◌^◌, Bool, true, false, Option, none, some, List, [], ◌∷◌, map, if◌then◌else◌,
  or_else, Result, ok, throw,
}
use identity_wallet.Common.Integer.{ℤ, pos}
use identity_wallet.Schema.Text.{Text, codes}
use identity_wallet.Schema.Value.{Value, undefined, str}
use identity_wallet.Staking.Chain.{Method, estimate_gas, Options, Run, pure, continue, ◌>>=◌, Web3}
use identity_wallet.Staking.Contracts.{Sent}
use identity_wallet.Staking.Service.{
  Staking, StakingInfo, Hashes, get_staking_info, place_stake, withdraw_stake,
}
use identity_wallet.Marketplace.State.{Stake, Status, pending, Transaction}
use identity_wallet.Marketplace.Selectors.{text_value}
use identity_wallet.Marketplace.Status.{Lookups, check_mp_tx_status}
use identity_wallet.Marketplace.Operations.{MarketplaceService}

-- `MarketplaceTransactions`. The id of a row to create is not read.
pub record Table (D : Type 0) : Type 0 where
  pub find : Option Text → Option Text → Run D (List Transaction)
  pub create : Transaction → Run D Transaction
  pub update_by_id : ℕ → Transaction → Run D Transaction

-- What a store, a configuration and BigNumber give the service: the public key of the wallet, the
-- chain's id, the text of a number of the smallest units, and the time.
pub record Setting : Type 0 where
  pub wallet_address : Option Text
  pub chain_id : ℕ
  pub big_number_text : ℕ → Text
  pub now : ℕ

pub record Backend (D C : Type 0) : Type 0 where
  pub database : D
  pub chain : C

module _ {D C : Type 0} where
  abbrev pub back_to_chain : {A : Type 0} → Result A × C → Backend D C → Result A × Backend D C
  back_to_chain (r, c) b = (r, record b { chain = c })

  abbrev pub on_chain : {A : Type 0} → Run C A → Run (Backend D C) A
  on_chain m b = back_to_chain (m b.chain) b

  abbrev pub back_to_database : {A : Type 0} → Result A × D → Backend D C → Result A × Backend D C
  back_to_database (r, d) b = (r, record b { database = d })

  abbrev pub on_database : {A : Type 0} → Run D A → Run (Backend D C) A
  on_database m b = back_to_database (m b.database) b

-- The info of the staking service, as the store takes it.
abbrev pub stake_of_info : StakingInfo → Stake
stake_of_info i = record {
  id = none;
  service_owner = undefined;
  service_address = i.service_address;
  service_id = i.service_id;
  balance = i.balance;
  contract = some i.contract;
  release_date = i.release_date;
}

-- `if (limit && limit.gas) …`
abbrev pub gas_of : Option Sent → ℕ
gas_of none = 0
gas_of (some s) = or_else s.gas 0

-- The fields of `blockchainTx`.
abbrev pub blockchain_txs : Hashes → List Sent
blockchain_txs h = elim h.approve [ none ↦ h.deposit ∷ [] | some a ↦ a ∷ h.deposit ∷ [] ]

abbrev pub hash_of : Sent → Value
hash_of s = or_else s.hash undefined

abbrev pub as_gas : Option ℕ → Option ℤ
as_gas none = none
as_gas (some g) = some (pos g)

module _ {D C : Type 0} (table : Table D) (web3 : Web3 C) (lookups : Lookups C) (staking : Staking)
    (setting : Setting) where
  open setting use {wallet_address, chain_id, big_number_text, now}

  -- `{ from, gasPrice, gas }`, or `{ from, method: 'estimateGas' }`
  abbrev pub sending_options : Option ℕ → Option ℕ → Options
  sending_options gas_price gas = record {
    from = wallet_address;
    method = none;
    gas = as_gas gas;
    gas_price = gas_price;
    value = none;
  }

  abbrev pub estimate_options : Options
  estimate_options = record {
    from = wallet_address;
    method = some estimate_gas;
    gas = none;
    gas_price = none;
    value = none;
  }

  -- `new BN(amount).times(new BN(10).pow(18)).toString()`
  abbrev pub smallest_units : Option ℕ → Value
  smallest_units none = str (codes "NaN")
  smallest_units (some a) = str (big_number_text (a * 10 ^ 18))

  abbrev pub amount_text : Value → Option Text
  amount_text (str s) = some s
  amount_text _ = none

  unfoldable pub service_load_transactions :
      Option Text → Option Text → Run (Backend D C) (List Transaction)
  service_load_transactions owner id = on_database (table.find owner id)

  unfoldable pub load_staking_info : Option Text → Option Text → Run (Backend D C) Stake
  load_staking_info owner id =
      on_chain (
        get_staking_info web3 (text_value owner) (text_value id) (sending_options none none)
          staking)
      >>= λ info. pure (stake_of_info info)

  -- The caller gives no amount.
  unfoldable pub estimate_gas_for_stake : Option Text → Option Text → Run (Backend D C) ℕ
  estimate_gas_for_stake owner id =
      on_chain
        (place_stake web3 undefined (text_value owner) (text_value id) estimate_options staking)
      >>= λ limits. pure (gas_of limits.approve + gas_of (some limits.deposit))

  unfoldable pub estimate_gas_for_withdraw : Option Text → Option Text → Run (Backend D C) ℕ
  estimate_gas_for_withdraw owner id =
      on_chain (withdraw_stake web3 now (text_value owner) (text_value id) estimate_options staking)
      >>= λ limit. pure (gas_of (some limit))

  abbrev pub new_row :
      Option Text → Option Text → Text → Option Text → Option ℕ → Option ℕ → List Sent → Transaction
  new_row owner id action amount gas_price gas txs = record {
    id = 0;
    service_owner = owner;
    service_address = none;
    service_id = id;
    action = some action;
    amount = amount;
    gas_price = gas_price;
    gas_limit = gas;
    network_id = some chain_id;
    blockchain_tx = some txs;
    last_status = some pending;
    time_stamp = none;
  }

  unfoldable pub service_place_stake :
      Option Text → Option Text → Option ℕ → Option ℕ → Option ℕ → Run (Backend D C) Transaction
  service_place_stake owner id amount gas_price gas =
      let units = smallest_units amount in
      on_chain (
        place_stake web3 units (text_value owner) (text_value id) (sending_options gas_price gas)
          staking)
      >>= λ tx. on_database (
          table.create (
            new_row owner id (codes "placeStake") (amount_text units) gas_price gas
              (blockchain_txs tx)))

  unfoldable pub service_withdraw_stake :
      Option Text → Option Text → Option ℕ → Option ℕ → Run (Backend D C) Transaction
  service_withdraw_stake owner id gas_price gas =
      on_chain (
        withdraw_stake web3 now (text_value owner) (text_value id) (sending_options gas_price gas)
          staking)
      >>= λ tx. on_database (
          table.create
            (new_row owner id (codes "withdrawStake") (some (codes "0")) gas_price gas (tx ∷ [])))

  -- `tx.blockchainTx || []`
  unfoldable pub service_check_status : Transaction → Run (Backend D C) Status
  service_check_status tx =
      on_chain (check_mp_tx_status lookups (map hash_of (or_else tx.blockchain_tx [])))

  unfoldable pub service_update_transaction : Transaction → Run (Backend D C) Transaction
  service_update_transaction tx = on_database (table.update_by_id tx.id tx)

  -- The service that the operations call.
  abbrev pub marketplace_service : MarketplaceService (Backend D C)
  marketplace_service = record {
    load_transactions = service_load_transactions;
    load_staking_info = load_staking_info;
    estimate_gas_for_stake = estimate_gas_for_stake;
    estimate_gas_for_withdraw = estimate_gas_for_withdraw;
    place_stake = service_place_stake;
    withdraw_stake = service_withdraw_stake;
    check_mp_tx_status = service_check_status;
    update_transaction = service_update_transaction;
  }
