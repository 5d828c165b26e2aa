-- ===== src/Marketplace/Tests.antt =====
-- The theorems on the marketplace, at a store with one transaction and a chain of one transaction.
use identity_wallet.Common.{
  ℕ, zero, suc, ◌≡◌, refl, true, false, Option, none, some, List, [], ◌∷◌, length, contains, ok,
  throw, type_error, nat_eq,
}
use identity_wallet.Common.Collection.{of_list}
use identity_wallet.Common.Collection.Laws.{Distinct, of_list-IsConsistent}
use identity_wallet.Schema.Text.{Text, codes, text_eq}
use identity_wallet.Schema.Value.{Value, undefined, num, str, bool, truthy}
use identity_wallet.Staking.Chain.{◌>>=◌, Web3}
use identity_wallet.Staking.Contracts.{Contract}
use identity_wallet.Staking.Service.{Staking}
use identity_wallet.Marketplace.State.{State, Action, Stake, Status, pending, success, Transaction}
use identity_wallet.Marketplace.Reducers.{transaction_id, text_id, reducer, add_transaction_reducer}
use identity_wallet.Marketplace.Reducers.Consistency.{IsValid, marketplace_reducer-IsValid}
use identity_wallet.Marketplace.Selectors.{Exchange, Service, service_ids, services_selector}
use identity_wallet.Marketplace.Selectors.Services.{exchange_keys, services_selector-ids}
use identity_wallet.Marketplace.Status.{
  Lookups, check_transaction_statuses, check_mp_tx_status, lower_status, rank,
}
use identity_wallet.Marketplace.Status.Lowest.{IsLowest, check_mp_tx_status-IsLowest}
use identity_wallet.Marketplace.Operations.{
  MarketplaceService, World, start_stake_transaction_operation, confirm_stake_transaction_operation,
  cancel_current_transaction_operation, sort_transactions,
}
use identity_wallet.Marketplace.Operations.Popups.{
  confirm_stake-start, confirm_stake-throws, cancel-start,
}
use identity_wallet.Marketplace.Operations.Sorting.{sort_transactions-none}
use identity_wallet.Marketplace.Service.{Table, Setting, Backend, estimate_gas_for_stake}
use identity_wallet.Marketplace.Service.Estimates.{estimate_gas_for_stake-constant}

abbrev transaction : ℕ → Transaction
transaction i = record {
  id = i;
  service_owner = some (codes "0x22");
  service_address = none;
  service_id = some (codes "exchange");
  action = some (codes "placeStake");
  amount = none;
  gas_price = none;
  gas_limit = none;
  network_id = none;
  blockchain_tx = none;
  last_status = some pending;
  time_stamp = none;
}

abbrev stake : Stake
stake = record {
  id = none;
  service_owner = undefined;
  service_address = str (codes "0x22");
  service_id = str (codes "exchange");
  balance = num 5;
  contract = none;
  release_date = num 0;
}

abbrev store : State
store = record {
  transactions = of_list transaction_id (transaction 1 ∷ []);
  stakes = of_list text_id [];
  current_transaction = none;
  displayed_popup = none;
}

marketplace_reducer-IsValid_example : IsValid (reducer store (Action.stakes_set (stake ∷ [])))
marketplace_reducer-IsValid_example =
    marketplace_reducer-IsValid
      (record {
        transactions = of_list-IsConsistent transaction_id (transaction 1 ∷ []);
        stakes = of_list-IsConsistent text_id [];
      })
      (Action.stakes_set (stake ∷ []))

abbrev exchange : Text → Exchange
exchange id = record {
  service_owner = some (codes "0x22");
  service_id = some id;
  amount = some 25;
  lock_period = none;
}

abbrev exchanges : List Exchange
exchanges = exchange (codes "a") ∷ exchange (codes "b") ∷ exchange (codes "a") ∷ []

services_selector-ids_example :
    (ss : List Service) × (services_selector (some exchanges) ≡ some ss)
    × Distinct (service_ids ss)
    × ((k : Text) → contains (service_ids ss) k ≡ contains (exchange_keys exchanges) k)
services_selector-ids_example = services_selector-ids exchanges

-- A chain on which the hash 1 is mined and has succeeded, and the hash 2 is unknown.
abbrev lookup_of : Value → Option (Option ℕ)
lookup_of (num (suc zero)) = some (some 9)
lookup_of _ = none

abbrev lookups : Lookups ℕ
lookups = record {
  get_transaction = λ h c. (ok (lookup_of h), suc c);
  get_transaction_receipt = λ h c. (ok (some (bool true)), suc c);
  hex_to_number = λ v. v;
}

abbrev hashes : List Value
hashes = num 1 ∷ num 2 ∷ []

pending_run : check_mp_tx_status lookups hashes 0 ≡ (ok pending, 3)
unfolding check_mp_tx_status lower_status rank truthy
pending_run = refl

check_mp_tx_status-IsLowest_example :
    (ss : List Status) × (check_transaction_statuses lookups hashes 0 ≡ (ok ss, 3))
    × (length ss ≡ 2)
    × IsLowest pending ss
check_mp_tx_status-IsLowest_example =
    check_mp_tx_status-IsLowest lookups hashes 0 3 pending pending_run

abbrev service : MarketplaceService ℕ
service = record {
  load_transactions = λ o i d. (ok [], d);
  load_staking_info = λ o i d. (ok stake, d);
  estimate_gas_for_stake = λ o i d. (ok 200000, suc d);
  estimate_gas_for_withdraw = λ o i d. (ok 100000, suc d);
  place_stake = λ o i a p g d. (ok (transaction 2), suc d);
  withdraw_stake = λ o i p g d. (ok (transaction 3), suc d);
  check_mp_tx_status = λ t d. (ok success, d);
  update_transaction = λ t d. (ok t, suc d);
}

abbrev world : World ℕ
world = record { services = 0; state = store }

confirm_stake-start_example :
    (start_stake_transaction_operation service 7
          (some (codes "0x22"))
          (some (codes "exchange"))
          (some 25)
        >>= λ started. confirm_stake_transaction_operation service 7)
      world
    ≡ (
      ok tt,
      record {
        services = 2;
        state = record (add_transaction_reducer (transaction 2) store) {
          current_transaction = none;
          displayed_popup = some (codes "pendingTransaction");
        };
      },
    )
confirm_stake-start_example =
    confirm_stake-start service 7 (some (codes "0x22")) (some (codes "exchange")) (some 25) world
      200000 1 2 (transaction 2) refl refl

abbrev failing_service : MarketplaceService ℕ
failing_service = record service { place_stake = λ o i a p g d. (throw type_error, suc d) }

confirm_stake-throws_test :
    confirm_stake_transaction_operation failing_service 7 world
    ≡ (throw type_error, record { services = 1; state = store })
confirm_stake-throws_test = confirm_stake-throws failing_service 7 world type_error 1 refl

cancel-start_test :
    (cancel_current_transaction_operation
      (start_stake_transaction_operation service 7
        (some (codes "0x22"))
        (some (codes "exchange"))
        (some 25)
        world).1).1.state
    ≡ store
cancel-start_test =
    cancel-start service 7 (some (codes "0x22")) (some (codes "exchange")) (some 25) world

sort_transactions-none_test :
    sort_transactions [] (transaction 2 ∷ transaction 1 ∷ []) ≡ transaction 2 ∷ transaction 1 ∷ []
sort_transactions-none_test =
    sort_transactions-none (transaction 2 ∷ transaction 1 ∷ []) (refl, (refl, tt))

abbrev table : Table ℕ
table = record {
  find = λ o i d. (ok [], d);
  create = λ t d. (ok (record t { id = suc d }), suc d);
  update_by_id = λ i t d. (ok t, d);
}

abbrev web3 : Web3 ℕ
web3 = record {
  wait_for_ticket = λ t c. (ok (num c), suc c);
  is_hex = λ v. true;
  ascii_to_hex = λ v. v;
  number_to_hex = λ v. v;
}

abbrev setting : Setting
setting = record {
  wallet_address = some (codes "0x11");
  chain_id = 3;
  big_number_text = λ n. [];
  now = 0;
}

abbrev contract : Text → Contract
contract address = record { address = address; abi = []; is_deprecated = false }

abbrev backend : Backend ℕ ℕ
backend = record { database = 0; chain = 0 }

estimate_gas_for_stake-constant_test :
    let staking : Staking = record {
      active_contract = some (contract (codes "0xaa"));
      deprecated_contracts = [];
      token_contract = some (contract (codes "0xcc"));
    } in
    let r =
      estimate_gas_for_stake table web3 lookups staking setting
        (some (codes "0x22"))
        none
        backend in
    (r.0 ≡ ok 200000) × (r.1.database ≡ 0)
estimate_gas_for_stake-constant_test =
    estimate_gas_for_stake-constant table web3 lookups setting (contract (codes "0xcc"))
      (contract (codes "0xaa")) [] (some (codes "0x22")) none backend
