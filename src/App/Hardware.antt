-- ===== src/App/Hardware.antt =====
-- The operations of common/app/index.js for a Ledger and a Trezor. `eventEmitter.off` is called with a
-- new function each time, which removes nothing.
use identity_wallet.Common.{
  ℕ, zero, suc, Bool, true, false, Option, none, some, List, ◌∷◌, if◌then◌else◌, Result, ok, throw,
  Exception, error, ◌==◌, nat_eq,
}
use identity_wallet.Schema.Text.{Text, codes, text_eq}
use identity_wallet.Staking.Chain.{Run, pure, fail, ◌>>=◌}
use identity_wallet.Transactions.Sending.{includes_text}
use identity_wallet.Wallet.Service.{HardwareWallet}
use identity_wallet.App.State.{Action, app_reducer}
use identity_wallet.App.Operations.{
  Services, World, Emitted, dispatch, push, calling, rescue, transform_error_message, set_error,
}

module _ {W : Type 0} where
  abbrev in_time : ℕ → Option (List HardwareWallet) → Run (World W) (List HardwareWallet)
  in_time ms none =
      fail (error (if ms == 30000 then "Timed out in 30000ms." else "Timed out in 60000ms."))
  in_time ms (some wallets) = pure wallets

module _ {W : Type 0} (services : Services W) where
  open services use {message}

  abbrev pub connected : Text → List HardwareWallet → Run (World W) (Unit {0})
  unfolding app_reducer
  connected wallet_type wallets = do
    set ← dispatch (Action.set_hardware_wallets wallets)
    typed ← dispatch (Action.set_wallet_type wallet_type)
    push (codes "/selectAddress")

  unfoldable pub load_ledger_wallets : ℕ → Run (World W) (Unit {0})
  unfolding set_error app_reducer
  load_ledger_wallets page w = rescue (set_error services) (
      (do
        found ← calling (services.get_ledger_wallets page 6)
        wallets ← in_time 30000 found
        connected (codes "ledger") wallets)
        w)

  -- A listener is added if there is none.
  unfoldable pub listen : Run (World W) (Unit {0})
  listen w = (
    ok tt,
    record w {
      pin_listeners = if w.pin_listeners == 0 then 1 else w.pin_listeners;
      passphrase_listeners = if w.passphrase_listeners == 0 then 1 else w.passphrase_listeners;
    },
  )

  -- What the catch does but for the next attempt.
  unfoldable pub trezor_error : Exception → World W → World W
  unfolding includes_text transform_error_message app_reducer
  trezor_error x w = if includes_text (codes "PIN canceled") (message x) then w else record w {
    app = app_reducer w.app (Action.set_unlock_wallet_error (transform_error_message (message x)));
  }

  unfoldable pub is_pin_invalid : Exception → Bool
  unfolding includes_text
  is_pin_invalid x = includes_text (codes "PIN invalid") (message x)

  unfoldable pub try_trezor : ℕ → Run (World W) (Unit {0})
  unfolding listen app_reducer
  try_trezor page = do
    listening ← listen
    found ← calling (services.get_trezor_wallets page 6)
    wallets ← in_time 60000 found
    connected (codes "trezor") wallets

  -- Whether the attempts end within the fuel, and the world after them.
  abbrev next_attempt : (World W → Bool × World W) → Result (Unit {0}) × World W → Bool × World W
  unfolding trezor_error is_pin_invalid
  next_attempt again (ok u, w) = (true, w)
  next_attempt again (throw x, w) =
      if is_pin_invalid x then again (trezor_error x w) else (true, trezor_error x w)

  unfoldable pub load_trezor_wallets : ℕ → ℕ → World W → Bool × World W
  unfolding try_trezor trezor_error is_pin_invalid
  load_trezor_wallets zero page w = (false, w)
  load_trezor_wallets (suc fuel) page w =
      next_attempt (load_trezor_wallets fuel page) (try_trezor page w)

  unfoldable pub load_other_hardware_wallets : ℕ → ℕ → World W → Bool × World W
  unfolding load_ledger_wallets load_trezor_wallets
  load_other_hardware_wallets fuel page w =
      if w.app.wallet_type == codes "ledger"
      then (true, (load_ledger_wallets page w).1)
      else if w.app.wallet_type == codes "trezor"
      then load_trezor_wallets fuel page w
      else (true, w)

  unfoldable pub enter_trezor_pin : Option Text → Text → Run (World W) (Unit {0})
  enter_trezor_pin x pin w = (ok tt, record w { emitted = Emitted.on_pin x pin ∷ w.emitted })

  unfoldable pub enter_trezor_passphrase : Option Text → Text → Run (World W) (Unit {0})
  enter_trezor_passphrase x passphrase w =
      (ok tt, record w { emitted = Emitted.on_passphrase x passphrase ∷ w.emitted })
