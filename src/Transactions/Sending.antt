-- ===== src/Transactions/Sending.antt =====
-- Sending a transaction: `confirmSend` and `incorporationSend` listen to what the wallet service
-- emits, and to a timeout of thirty seconds. Each event is handled as a whole.
pub mod Timeouts
use identity_wallet.Common.{
  ℕ, Bool, true, false, ◌&&◌, ◌||◌, Option, none, some, List, [], ◌∷◌, ◌++◌, map, if◌then◌else◌,
  Result, ok, throw, ◌==◌, nat_eq, not, option_eq,
}
use identity_wallet.Schema.Text.{Text, codes, text_eq, starts_with}
use identity_wallet.Staking.Chain.{Run, pure, ◌>>=◌}
use identity_wallet.EthUtils.{lower}
use identity_wallet.Transactions.State.{Transaction, Property, Signed, row_promise, Action}
use identity_wallet.Transactions.Operations.{
  Services, World, dispatch, push, calling, get_world, TransactionObject, transaction_object,
}

-- What is sent: a transaction of the user, or the payment for an incorporation, whose codes the last
-- route has.
pub data Send : Type 0 where
  confirm : Send
  incorporation : (company_code country_code : Text) → Send

pub record Failure : Type 0 where
  pub message : Text
  pub status_text : Option Text
  pub code : Option Text

-- What the emitter emits, and the timeout.
pub data Event : Type 0 where
  transaction_hash : Text → Event
  receipt : Event
  failure : Failure → Event
  timeout : Event

-- `message.indexOf(part) !== -1`
unfoldable pub includes_text : Text → Text → Bool
unfolding starts_with
includes_text part [] = starts_with part []
includes_text part (c ∷ s) = starts_with part (c ∷ s) || includes_text part s

-- Whether a timeout is set: `walletType === 'ledget' || walletType === 'trezor'`, or any wallet type.
unfoldable pub sets_timeout : Send → Text → Bool
sets_timeout confirm wallet_type = wallet_type == codes "ledget" || wallet_type == codes "trezor"
sets_timeout (incorporation company_code country_code) wallet_type = not (wallet_type == [])

-- Whether the listeners are still there, and whether the timeout is pending.
pub record Sending (W : Type 0) : Type 0 where
  pub world : World W
  pub sent : TransactionObject
  pub listening : Bool
  pub pending : Bool

module _ {W : Type 0} where
  -- What an incorporation does once the balances are updated.
  unfoldable pub after_receipt : Send → Run (World W) (Unit {0})
  after_receipt confirm = pure tt
  after_receipt (incorporation company_code country_code) = push (
      codes "/main/marketplace-incorporation/process-started/"
      ++ company_code
      ++ codes "/"
      ++ country_code)

  unfoldable pub stopped : Text → Text → Run (World W) (Unit {0})
  stopped status route = do
    set ← dispatch (Action.transaction_update (Property.status status ∷ []))
    push route

module _ {W : Type 0} (services : Services W) (send : Send) where
  open services use {update_wallet_with_balance, update_wallet_tokens_with_balance, add_or_update}

  unfoldable pub start : World W → Sending W
  unfolding sets_timeout transaction_object
  start w = record {
    world = w;
    sent = transaction_object services w;
    listening = true;
    pending = sets_timeout send w.wallet_type;
  }

  -- `createTxHistry`: the action of `createTxHistory` has the type of a signature by Trezor, and the
  -- promise of the row for its payload. The symbol of the token is `null` for Ether.
  unfoldable pub create_tx_histry : Text → Run (World W) (Unit {0})
  create_tx_histry hash w =
      let symbol =
        if w.transaction.crypto_currency == codes "ETH"
        then none
        else some w.transaction.crypto_currency in
      dispatch (Action.trezor_tx_sign row_promise)
        (record w { services = add_or_update hash symbol w.transaction w.services })

  unfoldable pub update_balances : Run (World W) (Unit {0})
  update_balances = do
    wallet ← calling update_wallet_with_balance
    tokens ← calling update_wallet_tokens_with_balance
    dispatch (Action.transaction_update (Property.status (codes "Sent!") ∷ []))

  unfoldable pub on_transaction_hash : Text → Run (World W) (Unit {0})
  unfolding create_tx_histry
  on_transaction_hash hash = do
    set ← dispatch (
        Action.transaction_update
          (Property.status (codes "Pending") ∷ Property.transaction_hash hash ∷ []))
    routed ← push (codes "/main/transaction-progress")
    create_tx_histry hash

  unfoldable pub on_receipt : Run (World W) (Unit {0})
  unfolding update_balances after_receipt
  on_receipt = do updated ← update_balances; after_receipt send

  unfoldable pub on_failure : Failure → Run (World W) (Unit {0})
  unfolding lower includes_text
  on_failure x =
      let message = map lower x.message in
      if includes_text (codes "insufficient funds") message
        || includes_text (codes "underpriced") message
      then stopped (codes "NoBalance") (codes "/main/transaction-no-gas-error")
      else if x.status_text == some (codes "CONDITIONS_OF_USE_NOT_SATISFIED")
      then push (codes "/main/transaction-declined/Ledger")
      else if x.code == some (codes "Failure_ActionCancelled")
      then push (codes "/main/transaction-declined/Trezor")
      else if x.status_text == some (codes "UNKNOWN_ERROR")
      then push (codes "/main/transaction-unlock")
      else stopped (codes "Error") (codes "/main/transaction-error")

  -- A listener that throws ends in a rejected promise, which nobody awaits.
  abbrev left : Result (Unit {0}) × World W → World W
  left r = r.1

  -- A hash and a failure clear the timeout. The timeout takes the listeners away.
  unfoldable pub on_event : Event → Sending W → Sending W
  unfolding on_transaction_hash on_receipt on_failure
  on_event (transaction_hash hash) s =
      if s.listening
      then record s { world = left (on_transaction_hash hash s.world); pending = false }
      else s
  on_event receipt s = if s.listening then record s { world = left (on_receipt s.world) } else s
  on_event (failure x) s =
      if s.listening then record s { world = left (on_failure x s.world); pending = false } else s
  on_event timeout s =
      if s.pending
      then record s {
        world = left (push (codes "/main/transaction-timeout") s.world);
        listening = false;
        pending = false;
      }
      else s

  unfoldable pub run : List Event → Sending W → Sending W
  unfolding on_event
  run [] s = s
  run (e ∷ es) s = run es (on_event e s)
