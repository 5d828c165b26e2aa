-- ===== src/Marketplace/Selectors.antt =====
-- The selectors of src/common/marketplaces/selectors.js. What other parts of the store give them,
-- the exchanges, the gas prices and the exchange rate, are arguments.
pub mod Services
use identity_wallet.Common.{
  ℕ, zero, ◌*◌, ◌≡◌, refl, ap, Bool, true, false, ◌&&◌, ◌||◌, Option, none, some, List, [], ◌∷◌,
  ◌++◌, map, arith, if◌then◌else◌, or_else, ◌==◌, contains, find, filter, All, Result, ok, throw,
  type_error, ◌>>=◌, nat_eq, option_eq, Bool-cases, inl, inr,
}
use identity_wallet.Common.Dict.{lookup}
use identity_wallet.Common.Collection.{Collection, listed, keep}
use identity_wallet.Common.Collection.Laws.{Distinct}
use identity_wallet.Schema.Text.{Text, codes, text_eq}
use identity_wallet.Schema.Value.{Value, undefined, str}
use identity_wallet.Marketplace.State.{
  State, Stake, Status, pending, processing, Transaction, CurrentTransaction,
}
use identity_wallet.Marketplace.Reducers.{service_key}

pub record Exchange : Type 0 where
  pub service_owner : Option Text
  pub service_id : Option Text
  pub amount : Option ℕ
  pub lock_period : Option ℕ

-- What `_.pick` takes of an exchange, with the id.
pub record Service : Type 0 where
  pub id : Text
  pub service_owner : Option Text
  pub service_id : Option Text
  pub amount : Option ℕ
  pub lock_period : Option ℕ

abbrev pub text_value : Option Text → Value
text_value none = undefined
text_value (some s) = str s

-- `${curr.serviceOwner}_${curr.serviceId}`
unfoldable pub exchange_key : Exchange → Text
unfolding service_key
exchange_key e = service_key (text_value e.service_owner) (text_value e.service_id)

unfoldable pub service_of : Exchange → Service
unfolding exchange_key
service_of e = record {
  id = exchange_key e;
  service_owner = e.service_owner;
  service_id = e.service_id;
  amount = e.amount;
  lock_period = e.lock_period;
}

abbrev pub service_ids : List Service → List Text
service_ids = map (λ s. s.id)

-- The loop: an exchange whose service is in `servicesById` adds none.
unfoldable pub add_services : List Service → List Exchange → List Service
unfolding service_of
add_services acc [] = acc
add_services acc (e ∷ es) =
    let known = add_services acc es in
    if contains (service_ids acc) (exchange_key e)
    then known
    else add_services (acc ++ service_of e ∷ []) es

unfoldable pub services_selector : Option (List Exchange) → Option (List Service)
unfolding add_services
services_selector none = none
services_selector (some es) = some (add_services [] es)

unfoldable pub stake_selector : State → Text → Option Stake
stake_selector s id = lookup id s.stakes.by_id

unfoldable pub transactions_selector : State → List (Option Transaction)
transactions_selector s = listed s.transactions

abbrev pub in_progress : Option Status → Bool
in_progress (some pending) = true
in_progress (some processing) = true
in_progress _ = false

-- `tx.serviceOwner || tx.serviceAddress`
abbrev pub owner_of : Transaction → Option Text
owner_of t = elim t.service_owner [
  | none ↦ t.service_address
  | some s ↦ elim s [ [] ↦ t.service_address | c ∷ cs ↦ some (c ∷ cs) ]
]

abbrev pub is_pending : Text → Text → Transaction → Bool
is_pending owner id t =
    owner_of t == some owner && t.service_id == some id && in_progress t.last_status

unfoldable pub pending_transaction_selector : State → Text → Text → Result (Option Transaction)
unfolding transactions_selector
pending_transaction_selector s owner id = do
  txs ← keep (is_pending owner id) (transactions_selector s)
  elim txs [ [] ↦ ok none | t ∷ ts ↦ ok (some t) ]

-- What `currentTransactionSelector` adds to the transaction.
pub record Quoted : Type 0 where
  pub transaction : CurrentTransaction
  pub average : ℕ
  pub fee : ℕ

unfoldable pub current_transaction_selector : ℕ → State → Quoted
current_transaction_selector average s =
    let tx = or_else s.current_transaction (record {
      action = some (codes "none");
      gas_limit = some 0;
      gas_price = some average;
      service_owner = none;
      service_id = none;
      amount = none;
    }) in
    record {
      transaction = tx;
      average = average;
      fee = or_else tx.gas_price 0 * or_else tx.gas_limit 0;
    }

unfoldable pub displayed_popup_selector : State → Option Text
displayed_popup_selector s = s.displayed_popup
