-- ===== src/Wallet/Tests.antt =====
-- Runs of the wallet service at a device with accounts a, b, c, …
use identity_wallet.Common.{
  ℕ, ◌+◌, ◌*◌, false, none, some, List, [], ◌∷◌, ◌≡◌, refl, ◌↔◌, ok, throw, error, type_error,
}
use identity_wallet.Schema.Text.{Text, codes, text_eq, decimal}
use identity_wallet.Schema.Value.{undefined, num, str, Fields, end, field, get, put}
use identity_wallet.Staking.Chain.{pure, fail, ◌>>=◌}
use identity_wallet.Wallet.Store
use identity_wallet.Wallet.Service.{
  Account, Accounts, Files, Table, HardwareWallet, get_ledger_wallets, unlock_wallet_with_password,
  unlock_wallet_with_private_key,
}
use identity_wallet.Wallet.Service.Paths.{addresses_from, derivation_path, get_ledger_wallets-path}

-- The world is the offset of the device and the number of accounts that it lists.
abbrev World : Type 0
World = ℕ × ℕ

abbrev device : ℕ → Text
device n = (97 + n) ∷ []

abbrev account : Account
account = record { address = codes "0xab"; private_key = codes "12" }

abbrev accounts : Accounts World
accounts = record {
  create = λ password. pure account;
  add = λ a. pure tt;
  set_default_account = λ a. pure tt;
  encrypt = λ key password. pure key;
  decrypt = λ keystore password. pure account;
  private_key_to_account = λ key. pure account;
  is_valid_private = λ key. false;
  get_balance = λ address. pure (num 5);
  to_ether = λ v. v;
  switch_to_ledger_wallet = λ offset quantity w. (ok tt, (offset, quantity));
  switch_to_trezor_wallet = λ offset quantity w. (ok tt, (offset, quantity));
  get_accounts = λ w. (ok (addresses_from device w.0 w.1), w);
}

abbrev files : Files World
files = record {
  wallets_directory_path = codes "/wallets/";
  resolve = λ directory v. directory;
  access = λ path. fail type_error;
  read_file = λ path. pure [];
  write_file = λ path content. pure tt;
  copy_file = λ from to. pure tt;
}

abbrev row : Fields
row = field (codes "id") (num 3) (field (codes "keystoreFilePath") (str (codes "old")) end)

abbrev table : Table World
table = record {
  insert = λ fields. pure fields;
  find_by_id = λ id. pure (some row);
  find_by_public_key = λ key. pure none;
  find_all_with_key_store_file = pure (row ∷ []);
  update_profile_picture = λ id picture. pure row;
  update_row_name = λ id name. pure row;
  update_row_setup = λ id setup. pure row;
  format_data_url = λ v. v;
  buffer_from_data_url = λ v. v;
}

device_lists :
    (w1 w2 : World) (addresses : List Text)
    → (accounts.switch_to_ledger_wallet 5 6 >>= λ u. accounts.get_accounts) w1 ≡ (ok addresses, w2)
    → addresses ≡ addresses_from device 5 6
device_lists w1 w2 addresses h = cc

abbrev listed : List HardwareWallet
listed =
    (record { address = codes "f"; balance = num 5; path = codes "44'/60'/0'/30" })
    ∷ (record { address = codes "g"; balance = num 5; path = codes "44'/60'/0'/31" })
    ∷ (record { address = codes "h"; balance = num 5; path = codes "44'/60'/0'/32" })
    ∷ (record { address = codes "i"; balance = num 5; path = codes "44'/60'/0'/33" })
    ∷ (record { address = codes "j"; balance = num 5; path = codes "44'/60'/0'/34" })
    ∷ (record { address = codes "k"; balance = num 5; path = codes "44'/60'/0'/35" })
    ∷ []

get_ledger_wallets_test : get_ledger_wallets accounts files table 5 6 (0, 0) ≡ (ok listed, (5, 6))
unfolding get_ledger_wallets decimal
get_ledger_wallets_test = refl

get_ledger_wallets-path_example :
    (codes "h" ≡ device (5 + 2))
    × ((codes "44'/60'/0'/32" ≡ derivation_path (5 + 2)) ↔ (◌≡◌ {A = ℕ} (5 * 6) 5))
get_ledger_wallets-path_example =
    get_ledger_wallets-path accounts files table device 5 6 2 (0, 0) device_lists
      get_ledger_wallets_test refl

-- A keystore whose path cannot be read is looked for in the directory of the wallets.
unlock_wallet_with_password_test :
    unlock_wallet_with_password accounts files table (num 3) (codes "secret") (0, 0) ≡ (
      ok (
          field (codes "id") (num 3) (
            field (codes "keystoreFilePath") (str (codes "old")) (
              field (codes "profilePicture") undefined (
                field
                  (codes "publicKey")
                  (str (codes "0xab"))
                  (field (codes "privateKey") (str (codes "12")) end))))),
      (0, 0),
    )
unfolding unlock_wallet_with_password get put text_eq
unlock_wallet_with_password_test = refl

unlock_wallet_with_private_key_test :
    (unlock_wallet_with_private_key accounts files table (codes "0x1") (0, 0)).0
    ≡ throw (error "The private key you entered is incorrect. Please try again!")
unfolding unlock_wallet_with_private_key
unlock_wallet_with_private_key_test = refl

abbrev store_services : Store.Services ℕ
store_services = record {
  get_balance = λ id. pure (num 8);
  update_wallet_avatar = λ avatar id. pure tt;
  update_wallet_name = λ name id. pure (field (codes "name") name end);
  update_wallet_setup = λ setup id. pure end;
  times = λ balance price. balance;
}

-- The name in the store is overwritten by what is shown, also if only the balance is refreshed.
refresh_wallet_balance_test :
    get
      (codes "name")
      (Store.refresh_wallet_balance store_services (record {
        services = 0;
        wallet = field (codes "name") (str (codes "mine")) end;
        prices = record { prices = [] };
      })).1.wallet
    ≡ str (codes "Ethereum")
unfolding Store.refresh_wallet_balance get put text_eq
refresh_wallet_balance_test = refl
