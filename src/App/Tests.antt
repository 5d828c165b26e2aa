-- ===== src/App/Tests.antt =====
-- Runs of the operations of the application.
use identity_wallet.Common.{
  ℕ, zero, suc, nat_eq, true, false, none, some, [], ◌∷◌, ◌≡◌, refl, ◌⊎◌, ok, throw, error,
  type_error, Exception, ◌==◌, if◌then◌else◌,
}
use identity_wallet.Schema.Text.{Text, codes, text_eq}
use identity_wallet.Schema.Value.{
  Value, null, num, str, bool, Fields, end, field, get, put, has_field,
}
use identity_wallet.Staking.Chain.{pure, fail}
use identity_wallet.Wallet.Replacing.{IsProper}
use identity_wallet.App.State.{initial_state}
use identity_wallet.App.Operations.{
  Services, World, unlock_wallet, unlock_wallet_with_private_key, unlock_wallet_with_public_key,
  load_wallets, network_status_update,
}
use identity_wallet.App.Hardware.{load_trezor_wallets}
use identity_wallet.App.Operations.Unlocking.{
  Opened, Refused, unlock_wallet-outcome, unlock_wallet-replaces,
}

-- The world counts the attempts to connect.
abbrev services : Services ℕ
services = record {
  store = record {
    get_balance = λ id. pure (num 8);
    update_wallet_avatar = λ avatar id. pure tt;
    update_wallet_name = λ name id. pure end;
    update_wallet_setup = λ setup id. pure end;
    times = λ balance price. balance;
  };
  get_wallets = fail type_error;
  with_password = λ id password. fail type_error;
  with_new_file = λ path password. fail type_error;
  with_private_key =
      λ key. pure (field (codes "id") (num 1) (field (codes "privateKey") (str key) end));
  with_public_key = λ key path type. pure (
      field (codes "id") (num 2)
        (field (codes "privateKey") null (field (codes "profile") (str type) end)));
  get_ledger_wallets = λ page quantity. pure none;
  get_trezor_wallets = λ page quantity w.
      (elim w [ zero ↦ throw (error "PIN invalid") | suc n ↦ ok (some []) ], suc w);
  unlock_identity = λ id. pure tt;
  clear_relying_party = pure tt;
  get_settings = pure end;
  store_settings = λ settings. pure settings;
  message = λ x. elim x [ type_error ↦ codes "x" | error s ↦ codes s ];
}

abbrev world : World ℕ
world = record {
  store = record { services = 0; wallet = end; prices = record { prices = [] } };
  app = initial_state;
  routes = [];
  pin_listeners = 0;
  passphrase_listeners = 0;
  emitted = [];
}

unlock_wallet-outcome_example :
    ((unlock_wallet services
        (services.with_private_key (codes "12"))
        (some (codes "privateKey"))
        world).0
      ≡ ok tt)
    × (Opened services
          (some (codes "privateKey"))
          world
          (unlock_wallet services
            (services.with_private_key (codes "12"))
            (some (codes "privateKey"))
            world).1
        ⊎ Refused services world
            (unlock_wallet services
              (services.with_private_key (codes "12"))
              (some (codes "privateKey"))
              world).1)
unlock_wallet-outcome_example =
    unlock_wallet-outcome services (services.with_private_key (codes "12"))
      (some (codes "privateKey")) world

-- A wallet was unlocked by its private key, and then a hardware wallet.
abbrev unlocked : World ℕ
unlocked = (unlock_wallet_with_private_key services (codes "12") world).1

-- The row of the hardware wallet, whose private key is null.
abbrev hardware : Fields
hardware =
    field (codes "id") (num 2)
      (field (codes "privateKey") null (field (codes "profile") (str unlocked.app.wallet_type) end))

hardware-IsProper : IsProper hardware
unfolding has_field text_eq
hardware-IsProper = (refl, (refl, (refl, tt)))

unlock_wallet-replaces_example :
    let find = services.with_public_key (codes "0xab") (codes "44'") unlocked.app.wallet_type in
    let wallet = (unlock_wallet services find none unlocked).1.store.wallet in
    let asked = services.store.get_balance (get (codes "id") hardware) unlocked.store.services in
    ((x : Exception) × (s' : ℕ) × (asked ≡ (throw x, s')) × (wallet ≡ unlocked.store.wallet))
    ⊎ ((balance : Value) × (s' : ℕ) × (asked ≡ (ok balance, s'))
        × ((k : Text)
            → get k wallet ≡ (
                if k == codes "balance"
                then balance
                else if has_field k hardware
                then get k hardware
                else get k unlocked.store.wallet)))
unlock_wallet-replaces_example =
    unlock_wallet-replaces services
      (services.with_public_key (codes "0xab") (codes "44'") unlocked.app.wallet_type) none unlocked
      refl hardware-IsProper

-- The private key of the wallet before is gone.
hardware_key_test :
    get
      (codes "privateKey")
      (unlock_wallet_with_public_key services (codes "0xab") (codes "44'") unlocked).1.store.wallet
    ≡ null
unfolding unlock_wallet_with_public_key unlock_wallet_with_private_key get put text_eq
hardware_key_test = refl

private_key_test : get (codes "privateKey") unlocked.store.wallet ≡ str (codes "12")
unfolding unlock_wallet_with_private_key get put text_eq
private_key_test = refl

-- If the wallets cannot be loaded, the mark is taken back and the exception goes on.
load_wallets_test :
    ((load_wallets services world).0 ≡ throw type_error)
    × ((load_wallets services world).1.app.wallets_loading ≡ bool false)
unfolding load_wallets
load_wallets_test = (refl, refl)

-- A PIN that is invalid leads to another attempt, and its error stays.
load_trezor_wallets_test :
    ((load_trezor_wallets services 2 0 world).0 ≡ true)
    × ((load_trezor_wallets services 2 0 world).1.app.error ≡ codes "PIN invalid")
    × ((load_trezor_wallets services 2 0 world).1.routes ≡ codes "/selectAddress" ∷ [])
unfolding load_trezor_wallets text_eq nat_eq
load_trezor_wallets_test = (refl, refl, refl)

network_status_update_test :
    (network_status_update true (network_status_update false world)).routes
    ≡ codes "/" ∷ codes "/no-connection" ∷ []
unfolding network_status_update
network_status_update_test = refl
