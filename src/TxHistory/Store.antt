-- ===== src/TxHistory/Store.antt =====
-- The transactions in the store: src/common/transaction-history/index.js.
use identity_wallet.Common.{List, [], ◌≡◌, refl, Result, ok, throw}
use identity_wallet.Schema.Text.{codes}
use identity_wallet.Schema.Value.{Value, Fields, get}
use identity_wallet.Staking.Chain.{Run}

pub record State : Type 0 where
  pub transactions : List Fields

abbrev pub initial_state : State
initial_state = record { transactions = [] }

pub data Action : Type 0 where
  set_transactions : List Fields → Action

unfoldable pub transactions_reducer : State → Action → State
transactions_reducer s (Action.set_transactions transactions) = record s {
  transactions = transactions;
}

-- The service, the store and the selected wallet.
pub record World (W : Type 0) : Type 0 where
  pub services : W
  pub state : State
  pub wallet : Fields

module _ {W : Type 0} (get_transactions : Value → Run W (List Fields)) where
  abbrev store_found : Result (List Fields) × W → World W → Result (Unit {0}) × World W
  unfolding transactions_reducer
  store_found (ok found, d) w = (
    ok tt,
    record w { services = d; state = transactions_reducer w.state (Action.set_transactions found) },
  )
  store_found (throw x, d) w = (throw x, record w { services = d })

  unfoldable pub load_transactions : Run (World W) (Unit {0})
  unfolding transactions_reducer store_found
  load_transactions w =
      store_found (get_transactions (get (codes "publicKey") w.wallet) w.services) w

  load_transactions-state :
      (w : World W) {found : List Fields} {d : W}
      → get_transactions (get (codes "publicKey") w.wallet) w.services ≡ (ok found, d)
      → (load_transactions w).1.state.transactions ≡ found
  unfolding load_transactions transactions_reducer
  load_transactions-state w e = rw e refl
