-- ===== src/Marketplace/Reducers/Consistency.antt =====
-- The invariant of the marketplace state, which every action keeps.
use identity_wallet.Common.{◌≡◌, some, map, arith, Option-cases, inl, inr, nat_eq, Eq}
use identity_wallet.Common.Dict.{lookup, insert, lookup-insert}
use identity_wallet.Common.Collection.{Collection, IsConsistent}
use identity_wallet.Common.Collection.Laws.{of_list-IsConsistent, add-IsConsistent}
use identity_wallet.Schema.Text.{text_eq}
use identity_wallet.Marketplace.State.{
  State, Action, Stake, Transaction, merge_stake, merge_transaction,
}
use identity_wallet.Marketplace.Reducers.{
  transaction_id, text_id, stake_key, kept_stake, reducer, update_stake_reducer, set_stakes_reducer,
  add_transaction_reducer, set_transactions_reducer, update_transaction_reducer,
  set_marketplace_popup_reducer, set_current_transaction_reducer,
  update_current_transaction_reducer, clear_current_transaction_reducer,
}

-- In both collections the listed ids are the stored ones, each under its own id.
pub record IsValid (s : State) : Type 0 where
  pub transactions : IsConsistent transaction_id s.transactions
  pub stakes : IsConsistent text_id s.stakes

module _ {K V : Type 0} ⦃e : Eq K⦄ (key : V → K) where
  replace-IsConsistent :
      (x old : V) (c : Collection K V)
      → IsConsistent key c
      → lookup (key x) c.by_id ≡ some old
      → IsConsistent key (record { ids = c.ids; by_id = insert (key x) x c.by_id })
  replace-IsConsistent x old c h known = record {
    domain = λ i. ground (arith, h.domain i, lookup-insert i (key x) x c.by_id);
    keyed = λ i y q. ground (arith, h.keyed i y, lookup-insert i (key x) x c.by_id);
  }

module _ {s : State} (v : IsValid s) where
  update_stake_reducer-IsValid : (p : Stake) → IsValid (update_stake_reducer p s)
  unfolding update_stake_reducer merge_stake
  update_stake_reducer-IsValid p = elim (Option-cases (lookup (stake_key p) s.stakes.by_id)) [
    | inl missing ↦ rw (missing, update_stake_reducer) v
    | inr (old, known) ↦
        rw (known, update_stake_reducer)
          (record {
            transactions = v.transactions;
            stakes =
                replace-IsConsistent text_id (merge_stake (stake_key p) old p) old s.stakes v.stakes
                  known;
          })
  ]

  update_transaction_reducer-IsValid : (t : Transaction) → IsValid (update_transaction_reducer t s)
  unfolding update_transaction_reducer merge_transaction
  update_transaction_reducer-IsValid t = elim (Option-cases (lookup t.id s.transactions.by_id)) [
    | inl missing ↦ rw (missing, update_transaction_reducer) v
    | inr (old, known) ↦
        rw (known, update_transaction_reducer)
          (record {
            transactions =
                replace-IsConsistent transaction_id (merge_transaction old t) old s.transactions
                  v.transactions known;
            stakes = v.stakes;
          })
  ]

  -- Every action on a valid marketplace state gives a valid one.
  pub marketplace_reducer-IsValid : (a : Action) → IsValid (reducer s a)
  unfolding reducer set_stakes_reducer add_transaction_reducer set_transactions_reducer
      set_marketplace_popup_reducer set_current_transaction_reducer
      update_current_transaction_reducer clear_current_transaction_reducer
  marketplace_reducer-IsValid (Action.stakes_update_one p) = update_stake_reducer-IsValid p
  marketplace_reducer-IsValid (Action.stakes_set p) = record {
    transactions = v.transactions;
    stakes = of_list-IsConsistent text_id (map kept_stake p);
  }
  marketplace_reducer-IsValid (Action.transactions_add t) = record {
    transactions = add-IsConsistent transaction_id t s.transactions v.transactions;
    stakes = v.stakes;
  }
  marketplace_reducer-IsValid (Action.transactions_set p) = record {
    transactions = of_list-IsConsistent transaction_id p;
    stakes = v.stakes;
  }
  marketplace_reducer-IsValid (Action.transactions_update_one t) =
      update_transaction_reducer-IsValid t
  marketplace_reducer-IsValid (Action.popup_show p) = record {
    transactions = v.transactions;
    stakes = v.stakes;
  }
  marketplace_reducer-IsValid (Action.current_set t) = record {
    transactions = v.transactions;
    stakes = v.stakes;
  }
  marketplace_reducer-IsValid (Action.current_update t) = record {
    transactions = v.transactions;
    stakes = v.stakes;
  }
  marketplace_reducer-IsValid Action.current_clear = record {
    transactions = v.transactions;
    stakes = v.stakes;
  }
  marketplace_reducer-IsValid Action.unknown = v
