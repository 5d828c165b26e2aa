-- ===== src/Marketplace/Reducers.antt =====
-- The reducers of src/common/marketplaces/reducers.js. The key of a stake in `stakesById` is its
-- own id, or else that of its service.
pub mod Consistency
use identity_wallet.Common.{
  ℕ, Bool, true, false, not, Option, none, some, List, [], ◌∷◌, ◌++◌, map, if◌then◌else◌, is_some,
  nat_eq,
}
use identity_wallet.Common.Dict.{lookup, insert}
use identity_wallet.Common.Collection.{Collection, of_list, add}
use identity_wallet.Schema.Text.{Text, codes, text_eq}
use identity_wallet.Schema.Value.{Value, truthy, to_text}
use identity_wallet.Marketplace.State.{
  State, Action, Stake, Transaction, CurrentTransaction, merge_stake, merge_transaction,
  merge_current,
}

abbrev pub transaction_id : Transaction → ℕ
transaction_id t = t.id

-- `a || b`
abbrev pub or_value : Value → Value → Value
or_value a b = if truthy a then a else b

-- `${serviceOwner}_${serviceId}`
unfoldable pub service_key : Value → Value → Text
service_key owner id = to_text owner ++ 95 ∷ to_text id

-- `payload.id || …`: the empty text is falsy.
unfoldable pub stake_key : Stake → Text
unfolding service_key
stake_key s = elim s.id [
  | none ↦ service_key (or_value s.service_owner s.service_address) s.service_id
  | some t ↦ elim t [
    | [] ↦ service_key (or_value s.service_owner s.service_address) s.service_id
    | c ∷ cs ↦ c ∷ cs
  ]
]

-- The id of a stake in the store.
abbrev pub text_id : Stake → Text
text_id s = elim s.id [ none ↦ [] | some t ↦ t ]

unfoldable pub update_stake_reducer : Stake → State → State
unfolding stake_key
update_stake_reducer p s =
    let id = stake_key p in
    elim (lookup id s.stakes.by_id) [
      | none ↦ s
      | some current ↦ record s {
        stakes = record {
          ids = s.stakes.ids;
          by_id = insert id (merge_stake id current p) s.stakes.by_id;
        };
      }
    ]

-- A stake as it is kept: with an owner and an id.
unfoldable pub kept_stake : Stake → Stake
unfolding stake_key
kept_stake s = record s {
  id = some (stake_key s);
  service_owner = or_value s.service_owner s.service_address;
}

unfoldable pub set_stakes_reducer : List Stake → State → State
unfolding kept_stake
set_stakes_reducer p s = record s { stakes = of_list text_id (map kept_stake p) }

unfoldable pub add_transaction_reducer : Transaction → State → State
add_transaction_reducer t s = record s { transactions = add transaction_id t s.transactions }

unfoldable pub set_transactions_reducer : List Transaction → State → State
set_transactions_reducer p s = record s { transactions = of_list transaction_id p }

unfoldable pub update_transaction_reducer : Transaction → State → State
update_transaction_reducer t s = elim (lookup t.id s.transactions.by_id) [
  | none ↦ s
  | some old ↦ record s {
    transactions = record {
      ids = s.transactions.ids;
      by_id = insert t.id (merge_transaction old t) s.transactions.by_id;
    };
  }
]

unfoldable pub set_marketplace_popup_reducer : Option Text → State → State
set_marketplace_popup_reducer p s = record s { displayed_popup = p }

unfoldable pub set_current_transaction_reducer : CurrentTransaction → State → State
set_current_transaction_reducer t s = record s { current_transaction = some t }

unfoldable pub update_current_transaction_reducer : CurrentTransaction → State → State
update_current_transaction_reducer t s = record s {
  current_transaction = some (merge_current s.current_transaction t);
}

unfoldable pub clear_current_transaction_reducer : State → State
clear_current_transaction_reducer s = record s { current_transaction = none }

-- `reducer`: the dispatch on the action's type.
unfoldable pub reducer : State → Action → State
reducer s (Action.stakes_update_one p) = update_stake_reducer p s
reducer s (Action.stakes_set p) = set_stakes_reducer p s
reducer s (Action.transactions_add t) = add_transaction_reducer t s
reducer s (Action.transactions_set p) = set_transactions_reducer p s
reducer s (Action.transactions_update_one t) = update_transaction_reducer t s
reducer s (Action.popup_show p) = set_marketplace_popup_reducer p s
reducer s (Action.current_set t) = set_current_transaction_reducer t s
reducer s (Action.current_update t) = update_current_transaction_reducer t s
reducer s Action.current_clear = clear_current_transaction_reducer s
reducer s Action.unknown = s
