-- ===== src/Marketplace/Operations/Popups.antt =====
-- The popups around a stake: what is confirmed is what was started.
use identity_wallet.Common.{ℕ, ◌≡◌, refl, Option, none, some, ok, throw, Exception, arith}
use identity_wallet.Schema.Text.{Text, codes}
use identity_wallet.Staking.Chain.{◌>>=◌}
use identity_wallet.Marketplace.State.{Transaction}
use identity_wallet.Marketplace.Reducers.{
  reducer, add_transaction_reducer, set_current_transaction_reducer, set_marketplace_popup_reducer,
  clear_current_transaction_reducer,
}
use identity_wallet.Marketplace.Selectors.{current_transaction_selector}
use identity_wallet.Marketplace.Operations.{
  MarketplaceService, World, place_stake_operation, start_stake_transaction_operation,
  cancel_current_transaction_operation, confirm_stake_transaction_operation,
}

module _ {W : Type 0} (service : MarketplaceService W) (average : ℕ) where
  -- Once the gas is estimated, at `g`, starting a stake and confirming it calls `placeStake` with
  -- the owner, the service and the amount that it was started with, the average gas price and `g`.
  -- If that returns a transaction, it is added, the popup tells that it is pending, and no
  -- transaction is left to confirm.
  pub confirm_stake-start :
      (owner id : Option Text) (amount : Option ℕ) (w : World W) (g : ℕ) (d d' : W)
      (t : Transaction)
      → service.estimate_gas_for_stake owner id w.services ≡ (ok g, d)
      → service.place_stake owner id amount (some average) (some g) d ≡ (ok t, d')
      → (start_stake_transaction_operation service average owner id amount >>= λ started.
            confirm_stake_transaction_operation service average)
          w
        ≡ (
          ok tt,
          record {
            services = d';
            state = record (add_transaction_reducer t w.state) {
              current_transaction = none;
              displayed_popup = some (codes "pendingTransaction");
            };
          },
        )
  unfolding start_stake_transaction_operation confirm_stake_transaction_operation
      place_stake_operation reducer current_transaction_selector add_transaction_reducer
      set_current_transaction_reducer set_marketplace_popup_reducer
      clear_current_transaction_reducer
  confirm_stake-start owner id amount w g d d' t gas placed = rw (gas, placed) refl

  -- If `placeStake` throws on the transaction that is to be confirmed, then so does confirming it; the
  -- store stays as it is, with the transaction to confirm and the popup.
  pub confirm_stake-throws :
      (w : World W) (x : Exception) (d : W)
      → let tx = (current_transaction_selector average w.state).transaction in
        service.place_stake tx.service_owner tx.service_id tx.amount tx.gas_price tx.gas_limit
            w.services
          ≡ (throw x, d)
        → confirm_stake_transaction_operation service average w
          ≡ (throw x, record { services = d; state = w.state })
  unfolding confirm_stake_transaction_operation place_stake_operation
  confirm_stake-throws w x d failed = rw failed refl

  -- Cancelling a stake that was started leaves the store as it was, but with no transaction to
  -- confirm and no popup, whether the estimate of the gas threw or not.
  pub cancel-start :
      (owner id : Option Text) (amount : Option ℕ) (w : World W)
      → (cancel_current_transaction_operation
          (start_stake_transaction_operation service average owner id amount w).1).1.state
        ≡ record w.state { current_transaction = none; displayed_popup = none }
  unfolding start_stake_transaction_operation cancel_current_transaction_operation reducer
      set_current_transaction_reducer set_marketplace_popup_reducer
      clear_current_transaction_reducer
  cancel-start owner id amount w = ground arith
