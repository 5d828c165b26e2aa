-- ===== src/App/Operations.antt =====
-- The operations of common/app/index.js. A call that is raced against a timeout gives nothing if the
-- timeout is first.
pub mod Unlocking
use identity_wallet.Common.{
  ℕ, zero, suc, ◌+◌, Bool, true, false, not, ◌&&◌, Option, none, some, List, [], ◌∷◌, ◌++◌,
  if◌then◌else◌, Result, ok, throw, Exception, error, ◌==◌, nat_eq,
}
use identity_wallet.Schema.Text.{Text, codes, text_eq}
use identity_wallet.Schema.Value.{Value, bool, num, str, Fields, get, put, truthy}
use identity_wallet.Staking.Chain.{Run, pure, fail, ◌>>=◌}
use identity_wallet.Transactions.Sending.{includes_text}
use identity_wallet.Wallet.Store
use identity_wallet.Wallet.Store.{update_wallet_with_balance}
use identity_wallet.Wallet.Service.{HardwareWallet}
use identity_wallet.App.State.{State, Action, app_reducer}

-- The wallet service, the identity, the relying party and the settings. `message` is `error.message`.
pub record Services (W : Type 0) : Type 0 where
  pub store : Store.Services W
  pub get_wallets : Run W (List Fields)
  pub with_password : Value → Text → Run W Fields
  pub with_new_file : Text → Text → Run W Fields
  pub with_private_key : Text → Run W Fields
  pub with_public_key : Text → Text → Text → Run W Fields
  pub get_ledger_wallets : ℕ → ℕ → Run W (Option (List HardwareWallet))
  pub get_trezor_wallets : ℕ → ℕ → Run W (Option (List HardwareWallet))
  pub unlock_identity : Value → Run W (Unit {0})
  pub clear_relying_party : Run W (Unit {0})
  pub get_settings : Run W Fields
  pub store_settings : Fields → Run W Fields
  pub message : Exception → Text

-- What is emitted for the hardware wallet: an error, or nothing, and what was typed.
pub data Emitted : Type 0 where
  on_pin on_passphrase : Option Text → Text → Emitted

-- The wallet with what lies behind the services, the state of the application, the routes that were
-- pushed, the last one first, and the emitter: how many listen, and what was emitted.
pub record World (W : Type 0) : Type 0 where
  pub store : Store.World W
  pub app : State
  pub routes : List Text
  pub pin_listeners : ℕ
  pub passphrase_listeners : ℕ
  pub emitted : List Emitted

module _ {W : Type 0} where
  abbrev pub dispatch : Action → Run (World W) (Unit {0})
  dispatch a w = (ok tt, record w { app = app_reducer w.app a })

  abbrev pub push : Text → Run (World W) (Unit {0})
  push route w = (ok tt, record w { routes = route ∷ w.routes })

  abbrev pub on_store : {A : Type 0} → Result A × Store.World W → World W → Result A × World W
  on_store (r, s) w = (r, record w { store = s })

  abbrev pub with_store : {A : Type 0} → Run (Store.World W) A → Run (World W) A
  with_store m w = on_store (m w.store) w

  abbrev pub calling : {A : Type 0} → Run W A → Run (World W) A
  calling m = with_store (Store.calling m)

  abbrev pub get_app : Run (World W) State
  get_app w = (ok w.app, w)

  -- `try { … } catch (error) { … }`
  abbrev pub rescue :
      (Exception → Run (World W) (Unit {0}))
      → Result (Unit {0}) × World W
      → Result (Unit {0}) × World W
  rescue handler (ok u, w) = (ok u, w)
  rescue handler (throw x, w) = handler x w

  -- `try { … } finally { … }`, of what does not throw.
  abbrev pub finally :
      (World W → World W) → Result (Unit {0}) × World W → Result (Unit {0}) × World W
  finally last (r, w) = (r, last w)

unfoldable pub transform_error_message : Text → Text
transform_error_message msg =
    if msg == codes "Key derivation failed - possibly wrong password"
    then codes "Wrong password. Please try again"
    else msg

module _ {W : Type 0} (services : Services W) where
  open services use {message, unlock_identity, get_settings, store_settings}

  unfoldable pub load_wallets : Run (World W) (Unit {0})
  unfolding app_reducer
  load_wallets = do
    loading ← dispatch (Action.set_wallets_loading (bool true))
    cleared ← dispatch (Action.set_hardware_wallets [])
    reset ← dispatch (Action.set_wallets_loading (str []))
    party ← calling services.clear_relying_party
    typed ← dispatch (Action.set_wallet_type [])
    back ← dispatch (Action.set_go_back_path [])
    next ← dispatch (Action.set_go_next_path [])
    (λ w.
        finally
          (λ w'. record w' { app = app_reducer w'.app (Action.set_wallets_loading (bool false)) })
          ((do wallets ← calling services.get_wallets; dispatch (Action.set_wallets wallets)) w))

  unfoldable pub set_error : Exception → Run (World W) (Unit {0})
  unfolding transform_error_message app_reducer
  set_error x = dispatch (Action.set_unlock_wallet_error (transform_error_message (message x)))

  abbrev pub set_type : Option Text → Run (World W) (Unit {0})
  unfolding app_reducer
  set_type none = pure tt
  set_type (some type) = dispatch (Action.set_wallet_type type)

  -- What the four operations that unlock a wallet have in common.
  unfoldable pub unlock_wallet : Run W Fields → Option Text → Run (World W) (Unit {0})
  unfolding update_wallet_with_balance set_error
  unlock_wallet find wallet_type w = rescue set_error (
      (do
        wallet ← calling find
        updated ← with_store (update_wallet_with_balance services.store wallet)
        unlocked ← calling (unlock_identity (get (codes "id") wallet))
        typed ← set_type wallet_type
        push (codes "/main/dashboard"))
        w)

  unfoldable pub unlock_wallet_with_password : Value → Text → Run (World W) (Unit {0})
  unfolding unlock_wallet
  unlock_wallet_with_password wallet_id password =
      unlock_wallet (services.with_password wallet_id password) (some (codes "existingAddress"))

  unfoldable pub unlock_wallet_with_new_file : Text → Text → Run (World W) (Unit {0})
  unfolding unlock_wallet
  unlock_wallet_with_new_file file_path password =
      unlock_wallet (services.with_new_file file_path password) (some (codes "newAddress"))

  unfoldable pub unlock_wallet_with_private_key : Text → Run (World W) (Unit {0})
  unfolding unlock_wallet
  unlock_wallet_with_private_key private_key =
      unlock_wallet (services.with_private_key private_key) (some (codes "privateKey"))

  unfoldable pub unlock_wallet_with_public_key : Text → Text → Run (World W) (Unit {0})
  unfolding unlock_wallet
  unlock_wallet_with_public_key public_key path w =
      unlock_wallet (services.with_public_key public_key path w.app.wallet_type) none w

  unfoldable pub loading : Run (World W) (Unit {0})
  unfolding app_reducer
  loading = do
    settings ← calling get_settings
    set ← dispatch (Action.set_settings settings)
    push (if truthy (get (codes "termsAccepted") settings) then codes "/home" else codes "/terms")

  -- The object of the settings in the store is changed itself.
  unfoldable pub set_terms_accepted : Value → Value → Run (World W) (Unit {0})
  unfolding app_reducer
  set_terms_accepted is_terms_accepted crash_report_agreement w =
      let settings =
        put (codes "crashReportAgreement") (num (if truthy crash_report_agreement then 1 else 0))
          (put (codes "termsAccepted") is_terms_accepted w.app.settings) in
      (do
        new_settings ← calling (store_settings settings)
        set ← dispatch (Action.set_settings new_settings)
        push (codes "/home"))
        (record w { app = app_reducer w.app (Action.set_settings settings) })

-- `a === b`
unfoldable pub same_status : Bool → Bool → Bool
same_status true b = b
same_status false b = not b

unfoldable pub status_route : Bool → Text
status_route true = codes "/"
status_route false = codes "/no-connection"

unfoldable pub network_status_update : {W : Type 0} → Bool → World W → World W
unfolding status_route same_status app_reducer
network_status_update is_online w = if same_status w.app.is_online is_online then w else record w {
  app = app_reducer w.app (Action.set_network_status is_online);
  routes = status_route is_online ∷ w.routes;
}
