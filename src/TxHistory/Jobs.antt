-- ===== src/TxHistory/Jobs.antt =====
-- The synchronisation of a wallet and of all of them, and the job that repeats it.
use identity_wallet.Common.{
  ℕ, zero, suc, Bool, true, false, Option, none, some, List, [], ◌∷◌, ◌++◌, map, if◌then◌else◌,
  Result, ok, throw, type_error,
}
use identity_wallet.Common.Dict.{Dict, lookup, insert}
use identity_wallet.Schema.Text.{Text, codes, text_eq, starts_with}
use identity_wallet.Schema.Value.{Value, num, truthy}
use identity_wallet.Staking.Chain.{Run, pure, fail, ◌>>=◌}
use identity_wallet.EthUtils.{lower}
use identity_wallet.TxHistory.Formats.{Txs, Services, parse_hex, number}
use identity_wallet.TxHistory.Processing.{process_tx_history}
use identity_wallet.TxHistory.Sync.{Query, get_most_resent_block, collect_pages}

pub record WalletSetting : Type 0 where
  pub id : ℕ
  pub tx_history_last_synced_block : Value

pub record Wallet : Type 0 where
  pub id : ℕ
  pub public_key : Text

-- The tables that the synchronisation reads and writes.
pub record Tables (W : Type 0) : Type 0 where
  pub find_by_wallet_id : ℕ → Run W (Option WalletSetting)
  pub update_by_id : ℕ → WalletSetting → Run W (Unit {0})
  pub find_all : Run W (List Wallet)
  pub remove_not_mined_pending_txs : Text → Value → Run W (Unit {0})

-- `isSyncingMap` and `syncingJobIsStarted` are static.
pub record World (W : Type 0) : Type 0 where
  pub services : W
  pub is_syncing_map : Dict Text Bool
  pub syncing_job_is_started : Bool

-- How a promise ends up that is not rejected: fulfilled, or pending for ever. `running` is a loop whose
-- fuel ran out.
pub data Ending : Type 0 where
  fulfilled pending running : Ending

module _ {W : Type 0} where
  abbrev on_services : {A : Type 0} → Result A × W → World W → Result A × World W
  on_services (r, s) w = (r, record w { services = s })

  abbrev calling : {A : Type 0} → Run W A → Run (World W) A
  calling m w = on_services (m w.services) w

  -- `isSyncing`; `undefined` of an address that was never synchronised.
  unfoldable pub is_syncing : Option Text → World W → Option Bool
  unfolding lookup
  is_syncing none w = some false
  is_syncing (some []) w = some false
  is_syncing (some (c ∷ s)) w = lookup (c ∷ s) w.is_syncing_map

  -- `if (showProgress) self.isSyncingMap[address] = b`
  unfoldable pub show : Bool → Text → Bool → Run (World W) (Unit {0})
  unfolding insert
  show show_progress address b w = (
    ok tt,
    if show_progress then record w { is_syncing_map = insert address b w.is_syncing_map } else w,
  )

  -- The promise around a call that nobody awaits: if the call throws, it is pending for ever.
  abbrev unawaited : Result Ending × World W → Result Ending × World W
  unawaited (ok e, w) = (ok e, w)
  unawaited (throw x, w) = (ok pending, w)

-- `address.startsWith('0x') ? address : '0x' + address`, of the key in lower case.
unfoldable pub wallet_address : Wallet → Text
unfolding lower starts_with
wallet_address wallet =
    let address = map lower wallet.public_key in
    if starts_with (codes "0x") address then address else codes "0x" ++ address

module _ {W : Type 0} (services : Services W) (tables : Tables W) (network_id now : ℕ) where
  open tables use {find_by_wallet_id, update_by_id, find_all, remove_not_mined_pending_txs}

  abbrev setting_of : Option WalletSetting → Run (World W) WalletSetting
  setting_of none = fail type_error
  setting_of (some s) = pure s

  abbrev get_wallet_setting : ℕ → Run (World W) WalletSetting
  get_wallet_setting wallet_id = do found ← calling (find_by_wallet_id wallet_id); setting_of found

  -- `next(false)`
  unfoldable pub finish_sync :
      Text → ℕ → Bool → Option ℕ → Option (Dict Text Txs) → Run (World W) Ending
  unfolding process_tx_history show
  finish_sync address wallet_id show_progress endblock none = pure running
  finish_sync address wallet_id show_progress endblock (some txs) = do
    processed ← calling (process_tx_history services network_id now address txs)
    shown ← show show_progress address false
    setting ← get_wallet_setting wallet_id
    updated ← calling (
        update_by_id setting.id (record setting { tx_history_last_synced_block = number endblock }))
    pure fulfilled

  unfoldable pub next_pages : ℕ → Query → ℕ → Bool → Run (World W) Ending
  unfolding collect_pages finish_sync
  next_pages fuel q wallet_id show_progress = do
    txs ← calling (collect_pages services network_id fuel q 1 [])
    finish_sync q.address wallet_id show_progress q.end_block txs

  abbrev or_zero : Value → Value
  or_zero v = if truthy v then v else num 0

  unfoldable pub sync_by_wallet : ℕ → Text → ℕ → Bool → Run (World W) Ending
  unfolding show get_most_resent_block parse_hex next_pages
  sync_by_wallet fuel address wallet_id show_progress = do
    shown ← show show_progress address true
    block ← calling (get_most_resent_block services network_id)
    let endblock = parse_hex block
    setting ← get_wallet_setting wallet_id
    let q : Query = record {
      address = address;
      start_block = or_zero setting.tx_history_last_synced_block;
      end_block = endblock;
    }
    (λ w. unawaited (next_pages fuel q wallet_id show_progress w))

  unfoldable pub remove_not_mined : Text → Run (World W) (Unit {0})
  remove_not_mined address = do
    nonce ← calling (services.transaction_count address (codes "pending"))
    calling (remove_not_mined_pending_txs address (services.unary_plus nonce))

  -- What comes after an `await`: nothing, if the promise stays pending.
  abbrev awaited : Ending → Run (World W) Ending → Run (World W) Ending
  awaited fulfilled next = next
  awaited pending next = pure pending
  awaited running next = pure running

  unfoldable pub sync_wallets : ℕ → List Wallet → Run (World W) Ending
  unfolding sync_by_wallet wallet_address remove_not_mined
  sync_wallets fuel [] = pure fulfilled
  sync_wallets fuel (wallet ∷ wallets) = do
    let address = wallet_address wallet
    ending ← sync_by_wallet fuel address wallet.id false
    awaited ending (do removed ← remove_not_mined address; sync_wallets fuel wallets)

  unfoldable pub sync : ℕ → Run (World W) Ending
  unfolding sync_wallets
  sync fuel = do wallets ← calling find_all; sync_wallets fuel wallets

  -- `next` of the job, for a number of rounds. It goes on only after a round that is fulfilled.
  abbrev after_round : (World W → World W) → Result Ending × World W → World W
  after_round next (ok fulfilled, w) = next w
  after_round next (ok pending, w) = w
  after_round next (ok running, w) = w
  after_round next (throw x, w) = w

  unfoldable pub run_job : ℕ → ℕ → World W → World W
  unfolding sync
  run_job fuel zero w = w
  run_job fuel (suc rounds) w = after_round (run_job fuel rounds) (sync fuel w)

  unfoldable pub start_syncing_job : ℕ → ℕ → World W → World W
  unfolding run_job
  start_syncing_job fuel rounds w =
      if w.syncing_job_is_started
      then w
      else run_job fuel rounds (record w { syncing_job_is_started = true })
