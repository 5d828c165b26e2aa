-- ===== src/Marketplace/Operations.antt =====
-- The operations of src/common/marketplaces/operations.js, over the marketplace service. A call or
-- a dispatch that throws leaves behind what was done before it.
pub mod Popups
pub mod Sorting
use identity_wallet.Common.{
  ℕ, Bool, true, false, Option, none, some, List, [], ◌∷◌, ◌++◌, map, ltb, if◌then◌else◌, or_else,
  Result, ok, throw, type_error, Eq, ◌==◌, nat_eq, option_eq,
}
use identity_wallet.Schema.Text.{Text, codes, text_eq}
use identity_wallet.Staking.Chain.{Run, pure, fail, continue, ◌>>=◌}
use identity_wallet.Marketplace.State.{
  State, Action, Stake, Status, new, planned, pending, processing, success, failed, Transaction,
  CurrentTransaction,
}
use identity_wallet.Marketplace.Reducers.{reducer}
use identity_wallet.Marketplace.Selectors.{
  Exchange, Service, services_selector, current_transaction_selector,
}

-- `MarketplaceService`, over what it changes. Arguments of it may be `undefined`.
pub record MarketplaceService (W : Type 0) : Type 0 where
  pub load_transactions : Option Text → Option Text → Run W (List Transaction)
  pub load_staking_info : Option Text → Option Text → Run W Stake
  pub estimate_gas_for_stake : Option Text → Option Text → Run W ℕ
  pub estimate_gas_for_withdraw : Option Text → Option Text → Run W ℕ
  pub place_stake : Option Text → Option Text → Option ℕ → Option ℕ → Option ℕ → Run W Transaction
  pub withdraw_stake : Option Text → Option Text → Option ℕ → Option ℕ → Run W Transaction
  pub check_mp_tx_status : Transaction → Run W Status
  pub update_transaction : Transaction → Run W Transaction

pub record World (W : Type 0) : Type 0 where
  pub services : W
  pub state : State

module _ {W : Type 0} where
  abbrev pub dispatch : Action → Run (World W) (Unit {0})
  dispatch a w = (ok tt, record w { state = reducer w.state a })

  abbrev pub on_services : {A : Type 0} → Result A × W → World W → Result A × World W
  on_services (r, d) w = (r, record w { services = d })

  -- A call of the service.
  abbrev pub calling : {A : Type 0} → Run W A → Run (World W) A
  calling m w = on_services (m w.services) w

  abbrev pub get_state : Run (World W) State
  get_state w = (ok w.state, w)

-- `Promise.all(xs.map(f))`, in the order of the list.
unfoldable pub for_all : {A B C : Type 0} → (A → Run C B) → List A → Run C (List B)
for_all f [] = pure []
for_all f (x ∷ xs) = do y ← f x; ys ← for_all f xs; pure (y ∷ ys)

abbrev pub concat : {A : Type 0} → List (List A) → List A
concat [] = []
concat (xs ∷ xss) = xs ++ concat xss

-- `timeStampB < timeStampA`, false if one is missing.
abbrev pub later : Option ℕ → Option ℕ → Bool
later (some a) (some b) = ltb b a
later _ _ = false

-- The sort, the latest first.
unfoldable pub insert_transaction : Transaction → List Transaction → List Transaction
insert_transaction t [] = t ∷ []
insert_transaction t (x ∷ xs) =
    let rest = insert_transaction t xs in
    if later t.time_stamp x.time_stamp then t ∷ x ∷ xs else x ∷ rest

unfoldable pub sort_transactions : List Transaction → List Transaction → List Transaction
unfolding insert_transaction
sort_transactions acc [] = acc
sort_transactions acc (t ∷ ts) = sort_transactions (insert_transaction t acc) ts

-- The place of a status in its declaration, for `===`.
abbrev pub status_index : Status → ℕ
status_index new = 0
status_index planned = 1
status_index pending = 2
status_index processing = 3
status_index success = 4
status_index failed = 5

abbrev pub same_status : Status → Option Status → Bool
same_status s none = false
same_status s (some t) = status_index s == status_index t

module _ {W : Type 0} (service : MarketplaceService W) where
  open service use {
    load_transactions, load_staking_info, estimate_gas_for_stake, estimate_gas_for_withdraw,
    place_stake, withdraw_stake, check_mp_tx_status, update_transaction,
  }

  module _ (exchanges : Option (List Exchange)) where
    -- `servicesSelector(getState()) || []`
    abbrev services : List Service
    services = or_else (services_selector exchanges) []

    unfoldable pub load_transactions_operation : Run (World W) (Unit {0})
    unfolding for_all sort_transactions
    load_transactions_operation = do
      found ←
          calling
            (for_all (λ (s : Service). load_transactions s.service_owner s.service_id) services)
      dispatch (Action.transactions_set (sort_transactions [] (concat found)))

    unfoldable pub load_stakes_operation : Run (World W) (Unit {0})
    unfolding for_all
    load_stakes_operation = do
      stakes ←
          calling
            (for_all (λ (s : Service). load_staking_info s.service_owner s.service_id) services)
      dispatch (Action.stakes_set stakes)

  unfoldable pub place_stake_operation :
      Option Text → Option Text → Option ℕ → Option ℕ → Option ℕ → Run (World W) (Unit {0})
  place_stake_operation owner id amount gas_price gas_limit = do
    new_transaction ← calling (place_stake owner id amount gas_price gas_limit)
    dispatch (Action.transactions_add new_transaction)

  unfoldable pub withdraw_stake_operation :
      Option Text → Option Text → Option ℕ → Option ℕ → Run (World W) (Unit {0})
  withdraw_stake_operation owner id gas_price gas_limit = do
    new_transaction ← calling (withdraw_stake owner id gas_price gas_limit)
    dispatch (Action.transactions_add new_transaction)

  -- `if (status === 'success') { … }`
  abbrev pub refresh_stake : Status → Transaction → Run (World W) (Unit {0})
  refresh_stake success tx = do
    stake ← calling (load_staking_info tx.service_owner tx.service_id)
    dispatch (Action.stakes_update_one stake)
  refresh_stake _ tx = pure tt

  unfoldable pub update_transaction_status_operation : Transaction → Run (World W) (Unit {0})
  update_transaction_status_operation tx = do
    status ← calling (check_mp_tx_status tx)
    if same_status status tx.last_status
        then pure tt
        else (calling (update_transaction (record tx { last_status = some status })) >>= λ tx'.
            refresh_stake status tx' >>= λ done. dispatch (Action.transactions_update_one tx'))

  module _ (average : ℕ) where
    unfoldable pub start_stake_transaction_operation :
        Option Text → Option Text → Option ℕ → Run (World W) (Unit {0})
    unfolding current_transaction_selector
    start_stake_transaction_operation owner id amount = do
      state ← get_state
      let current = current_transaction_selector average state
      gas_limit ← calling (estimate_gas_for_stake owner id)
      first ← dispatch (
          Action.current_set (record {
            action = some (codes "placeStake");
            gas_limit = some gas_limit;
            gas_price = some current.average;
            service_owner = owner;
            service_id = id;
            amount = amount;
          }))
      dispatch (Action.popup_show (some (codes "confirmStakeTransaction")))

    unfoldable pub confirm_stake_transaction_operation : Run (World W) (Unit {0})
    unfolding place_stake_operation current_transaction_selector
    confirm_stake_transaction_operation = do
      state ← get_state
      let current = current_transaction_selector average state
      let tx = current.transaction
      first ←
          place_stake_operation tx.service_owner tx.service_id tx.amount tx.gas_price tx.gas_limit
      second ← dispatch (Action.popup_show (some (codes "pendingTransaction")))
      dispatch Action.current_clear

    unfoldable pub start_withdraw_transaction_operation :
        Option Text → Option Text → Run (World W) (Unit {0})
    unfolding current_transaction_selector
    start_withdraw_transaction_operation owner id = do
      state ← get_state
      let current = current_transaction_selector average state
      gas_limit ← calling (estimate_gas_for_withdraw owner id)
      first ← dispatch (
          Action.current_set (record {
            action = some (codes "withdrawStake");
            gas_limit = some gas_limit;
            gas_price = some current.average;
            service_owner = owner;
            service_id = id;
            amount = none;
          }))
      dispatch (Action.popup_show (some (codes "confirmWithdrawTransaction")))

    -- The arguments of `confirmWithdrawTransaction` are not read.
    unfoldable pub confirm_withdraw_transaction_operation : Run (World W) (Unit {0})
    unfolding withdraw_stake_operation current_transaction_selector
    confirm_withdraw_transaction_operation = do
      state ← get_state
      let current = current_transaction_selector average state
      let tx = current.transaction
      first ← withdraw_stake_operation tx.service_owner tx.service_id tx.gas_price tx.gas_limit
      second ← dispatch (Action.popup_show (some (codes "pendingTransaction")))
      dispatch Action.current_clear

unfoldable pub cancel_current_transaction_operation : {W : Type 0} → Run (World W) (Unit {0})
cancel_current_transaction_operation = do
  first ← dispatch Action.current_clear
  dispatch (Action.popup_show none)
