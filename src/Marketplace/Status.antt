-- ===== src/Marketplace/Status.antt =====
-- The status of a marketplace transaction from those of its transactions on the blockchain:
-- `checkMpTxStatus` of src/main/marketplace/marketplace-service.js, and `checkTransactionStatus` of
-- src/main/blockchain/web3-service.js.
pub mod Lowest
use identity_wallet.Common.{
  ℕ, zero, suc, ◌≡◌, refl, ap, sym, ◌≤◌, ◌<◌, ◌⊎◌, inl, inr, ◌↔◌, Bool, true, false, Option, none,
  some, List, [], ◌∷◌, arith, ltb, if◌then◌else◌, All, Result, ok, throw, type_error, Bool-cases,
}
use identity_wallet.Schema.Value.{Value, bool, num, truthy}
use identity_wallet.Staking.Chain.{Run, pure, fail, continue, ◌>>=◌}
use identity_wallet.Marketplace.State.{Status, new, planned, pending, processing, success, failed}

-- `statusMap`; a status that it lacks has no rank.
unfoldable pub rank : Status → Option ℕ
rank failed = some 1
rank pending = some 2
rank processing = some 3
rank success = some 4
rank _ = none

-- One step of the `reduce`.
unfoldable pub lower_status : Status → Status → Status
unfolding rank
lower_status acc curr = elim (rank acc) [
  | none ↦ curr
  | some a ↦ elim (rank curr) [ none ↦ acc | some c ↦ if ltb c a then curr else acc ]
]

unfoldable pub reduce_status : Status → List Status → Status
unfolding lower_status
reduce_status acc [] = acc
reduce_status acc (s ∷ ss) = reduce_status (lower_status acc s) ss

-- What `getTransaction` and `getTransactionReceipt` of web3 give, which may be `null`.
pub record Lookups (C : Type 0) : Type 0 where
  pub get_transaction : Value → Run C (Option (Option ℕ))
  pub get_transaction_receipt : Value → Run C (Option Value)
  pub hex_to_number : Value → Value

abbrev pub is_bool : Value → Bool
is_bool (bool b) = true
is_bool _ = false

-- `if (!tx.blockNumber)`
abbrev pub is_mined : Option ℕ → Bool
is_mined none = false
is_mined (some zero) = false
is_mined (some (suc n)) = true

module _ {C : Type 0} (lookups : Lookups C) where
  abbrev pub status_of_receipt : Option Value → Run C Status
  status_of_receipt none = fail type_error
  status_of_receipt (some status) =
      let passed = if is_bool status then status else lookups.hex_to_number status in
      pure (if truthy passed then success else failed)

  -- What is left once the transaction is fetched.
  abbrev pub status_of_transaction : Value → Option (Option ℕ) → Run C Status
  status_of_transaction hash none = pure pending
  status_of_transaction hash (some block) =
      if is_mined block
      then (lookups.get_transaction_receipt hash >>= status_of_receipt)
      else pure processing

  unfoldable pub check_transaction_status : Value → Run C Status
  check_transaction_status hash = do
    tx ← lookups.get_transaction hash
    status_of_transaction hash tx

  -- `Promise.all`, in the order of the list.
  unfoldable pub check_transaction_statuses : List Value → Run C (List Status)
  unfolding check_transaction_status
  check_transaction_statuses [] = pure []
  check_transaction_statuses (h ∷ hs) = do
    s ← check_transaction_status h
    ss ← check_transaction_statuses hs
    pure (s ∷ ss)

  -- `checkMpTxStatus`, on the hashes in `tx.blockchainTx || []`.
  unfoldable pub check_mp_tx_status : List Value → Run C Status
  unfolding check_transaction_statuses reduce_status
  check_mp_tx_status hashes = do
    statuses ← check_transaction_statuses hashes
    pure (reduce_status new statuses)
