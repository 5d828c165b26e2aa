-- ===== src/Wallet/Service.antt =====
-- `WalletService` of src/main/wallet/wallet-service.js, over interfaces to the accounts of web3, the
-- file system and the table of wallets.
pub mod Paths
use identity_wallet.Common.{
  ℕ, zero, suc, ◌+◌, ◌*◌, Bool, true, false, Option, none, some, List, [], ◌∷◌, ◌++◌, map,
  if◌then◌else◌, Result, ok, throw, Exception, type_error, error,
}
use identity_wallet.Schema.Text.{Text, codes, text_eq, decimal, replace}
use identity_wallet.Schema.Value.{Value, undefined, num, str, Fields, end, field, get, put, to_text}
use identity_wallet.Staking.Chain.{Run, pure, fail, ◌>>=◌, continue}

pub record Account : Type 0 where
  pub address : Text
  pub private_key : Text

-- What web3 has of accounts, of the node, and of the hardware wallet that is plugged in. `is_valid_private`
-- is of the bytes of a hexadecimal text.
pub record Accounts (W : Type 0) : Type 0 where
  pub create : Text → Run W Account
  pub add : Account → Run W (Unit {0})
  pub set_default_account : Text → Run W (Unit {0})
  pub encrypt : Text → Text → Run W Text
  pub decrypt : Text → Text → Run W Account
  pub private_key_to_account : Text → Run W Account
  pub is_valid_private : Text → Bool
  pub get_balance : Value → Run W Value
  pub to_ether : Value → Value
  pub switch_to_ledger_wallet : ℕ → ℕ → Run W (Unit {0})
  pub switch_to_trezor_wallet : ℕ → ℕ → Run W (Unit {0})
  pub get_accounts : Run W (List Text)

pub record Files (W : Type 0) : Type 0 where
  pub wallets_directory_path : Text
  pub resolve : Text → Value → Text
  pub access : Value → Run W (Unit {0})
  pub read_file : Value → Run W Text
  pub write_file : Text → Text → Run W (Unit {0})
  pub copy_file : Value → Text → Run W (Unit {0})

-- The table of wallets, and `formatDataUrl` and `bufferFromDataUrl` of its pictures.
pub record Table (W : Type 0) : Type 0 where
  pub insert : Fields → Run W Fields
  pub find_by_id : Value → Run W (Option Fields)
  pub find_by_public_key : Text → Run W (Option Fields)
  pub find_all_with_key_store_file : Run W (List Fields)
  pub update_profile_picture : Value → Value → Run W Fields
  pub update_row_name : Value → Value → Run W Fields
  pub update_row_setup : Value → Value → Run W Fields
  pub format_data_url : Value → Value
  pub buffer_from_data_url : Value → Value

pub record HardwareWallet : Type 0 where
  pub address : Text
  pub balance : Value
  pub path : Text

-- `44'/60'/0'/${page * accountsQuantity + index}`
unfoldable pub path_of : ℕ → ℕ → ℕ → Text
path_of page quantity index = codes "44'/60'/0'/" ++ decimal (page * quantity + index)

-- A row that must be there: reading a field of `undefined` throws.
abbrev pub row_of : {W : Type 0} → Option Fields → Run W Fields
row_of none = fail type_error
row_of (some o) = pure o

-- `try { … } catch (error) { … }`
abbrev pub rescued : {W A : Type 0} → Run W A → Result A × W → Result A × W
rescued handler (ok a, w) = (ok a, w)
rescued handler (throw x, w) = handler w

module _ {W : Type 0} (accounts : Accounts W) (files : Files W) (table : Table W) where
  open files use {wallets_directory_path, resolve, access, read_file, write_file, copy_file}
  open table use {
    insert, find_by_id, find_by_public_key, find_all_with_key_store_file, format_data_url,
  }

  -- `{ ...wallet, profilePicture: formatDataUrl(wallet.profilePicture) }`
  unfoldable pub with_picture : Fields → Fields
  with_picture wallet =
      put (codes "profilePicture") (format_data_url (get (codes "profilePicture") wallet)) wallet

  unfoldable pub with_keys : Account → Fields → Fields
  with_keys account wallet =
      put (codes "privateKey") (str account.private_key)
        (put (codes "publicKey") (str account.address) wallet)

  -- `accounts.wallet.add(account)` and `eth.defaultAccount = account.address`
  unfoldable pub use_account : Account → Run W (Unit {0})
  use_account account = do
    added ← accounts.add account
    accounts.set_default_account account.address

  -- `!wallet ? await Wallet.create(fields) : wallet`
  abbrev pub or_insert : Fields → Option Fields → Run W Fields
  or_insert fields none = insert fields
  or_insert fields (some wallet) = pure wallet

  unfoldable pub find_or_insert : Text → Fields → Run W Fields
  find_or_insert public_key fields = do
    found ← find_by_public_key public_key
    or_insert fields found

  -- The keystore is not written if that fails.
  unfoldable pub create_wallet : Text → Run W Fields
  unfolding use_account with_picture with_keys
  create_wallet password = do
    account ← accounts.create password
    used ← use_account account
    keystore ← accounts.encrypt account.private_key password
    let path = resolve wallets_directory_path (str account.address)
    written ← (λ w. rescued (pure tt) (write_file path keystore w))
    wallet ← insert (
        field (codes "publicKey") (str account.address) (
          field (codes "keystoreFilePath") (str path)
            (field (codes "profile") (str (codes "local")) end)))
    pure (put (codes "keystoreFilePath") (str path) (with_keys account (with_picture wallet)))

  unfoldable pub copy_keystore_file : Value → Text → Run W Bool
  copy_keystore_file id to_path = do
    found ← find_by_id id
    wallet ← row_of found
    (λ w. rescued (pure false) (
        (do
          copied ←
              copy_file (get (codes "keystoreFilePath") wallet)
                (resolve to_path (get (codes "publicKey") wallet))
          pure true)
          w))

  unfoldable pub get_balance : Value → Run W Value
  get_balance id = do
    found ← find_by_id id
    wallet ← row_of found
    balance ← accounts.get_balance (get (codes "publicKey") wallet)
    pure (accounts.to_ether balance)

  unfoldable pub get_wallets : Run W (List Fields)
  unfolding with_picture
  get_wallets = do wallets ← find_all_with_key_store_file; pure (map with_picture wallets)

  -- A path that cannot be read is one below the directory of the wallets.
  unfoldable pub unlock_wallet_with_password : Value → Text → Run W Fields
  unfolding use_account with_picture with_keys
  unlock_wallet_with_password id password = do
    found ← find_by_id id
    wallet ← row_of found
    let stored = get (codes "keystoreFilePath") wallet
    path ← (λ w.
        rescued (pure (str (resolve wallets_directory_path stored)))
          ((do accessed ← access stored; pure stored) w))
    keystore ← read_file path
    account ← accounts.decrypt keystore password
    used ← use_account account
    pure (with_keys account (with_picture wallet))

  unfoldable pub unlock_wallet_with_new_file : Text → Text → Run W Fields
  unfolding use_account with_picture with_keys find_or_insert
  unlock_wallet_with_new_file file_path password = do
    keystore ← read_file (str file_path)
    account ← accounts.decrypt keystore password
    used ← use_account account
    let path = resolve wallets_directory_path (str account.address)
    copied ← copy_file (str file_path) path
    wallet ← find_or_insert account.address (
        field (codes "publicKey") (str account.address) (
          field (codes "keystoreFilePath") (str path)
            (field (codes "profile") (str (codes "local")) end)))
    pure (put (codes "keystoreFilePath") (str path) (with_keys account (with_picture wallet)))

  abbrev account_found : Bool → Text → Run W Account
  account_found false private_key =
      fail (error "The private key you entered is incorrect. Please try again!")
  account_found true private_key = accounts.private_key_to_account private_key

  unfoldable pub unlock_wallet_with_private_key : Text → Run W Fields
  unfolding use_account with_picture with_keys find_or_insert replace
  unlock_wallet_with_private_key private_key = do
    account ←
        account_found (accounts.is_valid_private (replace (codes "0x") [] private_key)) private_key
    used ← use_account account
    wallet ← find_or_insert account.address (
        field (codes "publicKey") (str account.address)
          (field (codes "profile") (str (codes "local")) end))
    pure (with_keys account (with_picture wallet))

  unfoldable pub unlock_wallet_with_public_key : Text → Text → Text → Run W Fields
  unlock_wallet_with_public_key public_key path profile = do
    found ← find_by_public_key public_key
    defaulted ← accounts.set_default_account public_key
    or_insert
        (field (codes "publicKey") (str public_key)
          (field (codes "profile") (str profile) (field (codes "path") (str path) end)))
        found

  -- The accounts from an index on.
  unfoldable pub hardware_wallets : ℕ → ℕ → ℕ → List Text → Run W (List HardwareWallet)
  unfolding path_of
  hardware_wallets page quantity index [] = pure []
  hardware_wallets page quantity index (address ∷ addresses) = do
    balance ← accounts.get_balance (str address)
    rest ← hardware_wallets page quantity (suc index) addresses
    pure (
        (record {
          address = address;
          balance = accounts.to_ether balance;
          path = path_of page quantity index;
        })
        ∷ rest)

  -- `_getWallets`
  unfoldable pub list_wallets : ℕ → ℕ → Run W (List HardwareWallet)
  unfolding hardware_wallets
  list_wallets page quantity = do
    addresses ← accounts.get_accounts
    hardware_wallets page quantity 0 addresses

  unfoldable pub get_ledger_wallets : ℕ → ℕ → Run W (List HardwareWallet)
  unfolding list_wallets
  get_ledger_wallets page quantity = do
    switched ← accounts.switch_to_ledger_wallet page quantity
    list_wallets page quantity

  unfoldable pub get_trezor_wallets : ℕ → ℕ → Run W (List HardwareWallet)
  unfolding list_wallets
  get_trezor_wallets page quantity = do
    switched ← accounts.switch_to_trezor_wallet page quantity
    list_wallets page quantity

  unfoldable pub update_wallet_avatar : Value → Value → Run W Fields
  update_wallet_avatar avatar id =
      table.update_profile_picture id (table.buffer_from_data_url avatar)

  unfoldable pub update_wallet_name : Value → Value → Run W Fields
  update_wallet_name name id = table.update_row_name id name

  unfoldable pub update_wallet_setup : Value → Value → Run W Fields
  update_wallet_setup setup id = table.update_row_setup id setup
