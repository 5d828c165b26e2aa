-- ===== src/Wallet/Service/Paths.antt =====
-- The paths of the accounts of a hardware wallet, against the accounts that the device lists.
use identity_wallet.Common.{
  ℕ, zero, suc, ◌+◌, ◌*◌, Option, none, some, List, [], ◌∷◌, ◌++◌, ◌≡◌, arith, sym, ap, ◌∙◌, ◌↔◌,
  ok,
}
use identity_wallet.Schema.Text.{Text, codes, decimal, number_from, number_from-decimal}
use identity_wallet.Schema.Value.{str}
use identity_wallet.Staking.Chain.{◌>>=◌, continue-ok}
use identity_wallet.Wallet.Service.{
  Accounts, Files, Table, HardwareWallet, path_of, hardware_wallets, list_wallets,
  get_ledger_wallets,
}

module _ {ℓ} {A : Type ℓ} where
  abbrev pub get_elem? : List A → ℕ → Option A
  get_elem? [] i = none
  get_elem? (x ∷ xs) zero = some x
  get_elem? (x ∷ xs) (suc i) = get_elem? xs i

-- The path of an account by its number.
abbrev pub derivation_path : ℕ → Text
derivation_path n = codes "44'/60'/0'/" ++ decimal n

-- The addresses of `quantity` accounts from a number on.
abbrev pub addresses_from : (ℕ → Text) → ℕ → ℕ → List Text
addresses_from device first zero = []
addresses_from device first (suc quantity) =
    device first ∷ addresses_from device (first + 1) quantity

addresses_from-get :
    (device : ℕ → Text) (first quantity i : ℕ) {a : Text}
    → get_elem? (addresses_from device first quantity) i ≡ some a
    → a ≡ device (first + i)
addresses_from-get device first zero i h = cc
addresses_from-get device first (suc q) zero h = let e : first + 0 ≡ first = omega arith in rw e cc
addresses_from-get device first (suc q) (suc i) h =
    let e : first + suc i ≡ first + 1 + i = omega arith in
    rw e (addresses_from-get device (first + 1) q i h)

decimal_injective : (m n : ℕ) → decimal m ≡ decimal n → m ≡ n
decimal_injective m n e = sym (number_from-decimal m) ∙ ap (number_from 0) e ∙ number_from-decimal n

derivation_path_injective : (m n : ℕ) → derivation_path m ≡ derivation_path n → m ≡ n
derivation_path_injective m n e = decimal_injective m n (cc)

path_numbers :
    (page quantity i : ℕ) {path : Text}
    → path ≡ derivation_path (page * quantity + (0 + i))
    → (path ≡ derivation_path (page + i)) ↔ (page * quantity ≡ page)
path_numbers page quantity i e = (
  λ named. omega (arith, derivation_path_injective _ _ (sym e ∙ named)),
  λ numbers. e ∙ ap derivation_path (omega (arith, numbers)),
)

module _ {W : Type 0} (accounts : Accounts W) (files : Files W) (table : Table W) where
  hardware_wallets-get :
      (page quantity index i : ℕ) (addresses : List Text) (w : W) {ws : List HardwareWallet}
      {w' : W} {hw : HardwareWallet}
      → hardware_wallets accounts files table page quantity index addresses w ≡ (ok ws, w')
      → get_elem? ws i ≡ some hw
      → (get_elem? addresses i ≡ some hw.address)
        × (hw.path ≡ derivation_path (page * quantity + (index + i)))
  unfolding hardware_wallets path_of
  hardware_wallets-get page quantity index i [] w {ws = ws} h e =
      let nothing : [] ≡ ws = cc in cc (rw (← nothing) at e)
  hardware_wallets-get page quantity index zero (a ∷ addresses) w {ws = ws} {hw = hw} h e =
      let (balance, w1, b, rest) = continue-ok _ (accounts.get_balance (str a) w) h in
      let (ws', w2, r, last) =
        continue-ok _ (hardware_wallets accounts files table page quantity (suc index) addresses w1)
          rest in
      let first : HardwareWallet = record {
        address = a;
        balance = accounts.to_ether balance;
        path = path_of page quantity index;
      } in
      let listed : first ∷ ws' ≡ ws = cc in
      let same : first ≡ hw = cc (rw (← listed) at e) in
      let at_index : index + 0 ≡ index = omega arith in
      (
        ap (λ (x : HardwareWallet). some x.address) same,
        rw at_index (ap (λ (x : HardwareWallet). x.path) (sym same)),
      )
  hardware_wallets-get page quantity index (suc i) (a ∷ addresses) w {ws = ws} h e =
      let (balance, w1, b, rest) = continue-ok _ (accounts.get_balance (str a) w) h in
      let (ws', w2, r, last) =
        continue-ok _ (hardware_wallets accounts files table page quantity (suc index) addresses w1)
          rest in
      let first : HardwareWallet = record {
        address = a;
        balance = accounts.to_ether balance;
        path = path_of page quantity index;
      } in
      let listed : first ∷ ws' ≡ ws = cc in
      let at_index : index + suc i ≡ suc index + i = omega arith in
      rw at_index
        (hardware_wallets-get page quantity (suc index) i addresses w1 r (rw (← listed) at e))

  -- If the accounts that the device lists at an offset are those from that number on, an account that
  -- is listed for a page has the address at `page` and its place, and its path is the one of that
  -- account exactly if `page` times the quantity is `page`.
  pub get_ledger_wallets-path :
      (device : ℕ → Text) (page quantity i : ℕ) (w : W) {ws : List HardwareWallet} {w' : W}
      {hw : HardwareWallet}
      → ((w1 w2 : W) (addresses : List Text)
          → (accounts.switch_to_ledger_wallet page quantity >>= λ u. accounts.get_accounts) w1
            ≡ (ok addresses, w2)
          → addresses ≡ addresses_from device page quantity)
      → get_ledger_wallets accounts files table page quantity w ≡ (ok ws, w')
      → get_elem? ws i ≡ some hw
      → (hw.address ≡ device (page + i))
        × ((hw.path ≡ derivation_path (page + i)) ↔ (page * quantity ≡ page))
  unfolding get_ledger_wallets list_wallets
  get_ledger_wallets-path device page quantity i w lists h e =
      let (u, w1, s, rest) = continue-ok _ (accounts.switch_to_ledger_wallet page quantity w) h in
      let (addresses, w2, g, listed) = continue-ok _ (accounts.get_accounts w1) rest in
      let (address, path) = hardware_wallets-get page quantity 0 i addresses w2 listed e in
      let from : addresses ≡ addresses_from device page quantity = lists w w2 addresses (rw s g) in
      let at_place : 0 + i ≡ i = omega arith in
      (
        addresses_from-get device page quantity i (rw from at address),
        path_numbers page quantity i path,
      )
