-- ===== src/Wallet/Store.antt =====
-- The unlocked wallet: src/common/wallet/{reducers,selectors,operations,actions}.js. A wallet is an
-- object, whose fields an update adds to those before. The product of a balance and a price is an
-- argument.
use identity_wallet.Common.{
  false, ◌||◌, Option, none, some, ◌≡◌, refl, arith, ◌∙◌, Result, ok, throw, Exception, ◌==◌,
}
use identity_wallet.Schema.Text.{Text, codes, text_eq}
use identity_wallet.Schema.Value.{
  Value, undefined, num, bool, str, Fields, end, field, get, put, has_field, strict_eq,
}
use identity_wallet.Staking.Chain.{Run, pure, ◌>>=◌, continue}
use identity_wallet.Prices
use identity_wallet.Prices.{Price}

-- `{ ...o, ...p }`
unfoldable pub assign : Fields → Fields → Fields
assign o end = o
assign o (field k v p) = assign (put k v o) p

pub data Action : Type 0 where
  wallet_update : Fields → Action

unfoldable pub wallet_reducer : Fields → Action → Fields
unfolding assign
wallet_reducer state (Action.wallet_update payload) = assign state payload

-- `times` is `balance * price`, of a price that is missing too.
unfoldable pub get_wallet : (Value → Option Value → Value) → Prices.State Value → Fields → Fields
unfolding Prices.get_by_symbol strict_eq
get_wallet times prices wallet =
    let found = Prices.get_by_symbol prices (codes "ETH") in
    let price : Option Value = elim found [ none ↦ none | some p ↦ some p.price_usd ] in
    let profile = get (codes "profile") wallet in
    put (codes "isHardwareWallet")
      (bool (strict_eq profile (str (codes "ledger")) || strict_eq profile (str (codes "trezor"))))
      (put (codes "recordState") (num 1) (
        put (codes "price") (elim price [ none ↦ undefined | some v ↦ v ])
          (put (codes "symbol") (str (codes "ETH")) (
            put (codes "name") (str (codes "Ethereum"))
              (put (codes "balanceInFiat") (times (get (codes "balance") wallet) price) wallet)))))

-- The wallet service, as the store calls it.
pub record Services (W : Type 0) : Type 0 where
  pub get_balance : Value → Run W Value
  pub update_wallet_avatar : Value → Value → Run W (Unit {0})
  pub update_wallet_name : Value → Value → Run W Fields
  pub update_wallet_setup : Value → Value → Run W Fields
  pub times : Value → Option Value → Value

pub record World (W : Type 0) : Type 0 where
  pub services : W
  pub wallet : Fields
  pub prices : Prices.State Value

module _ {W : Type 0} where
  abbrev pub dispatch : Action → Run (World W) (Unit {0})
  dispatch a w = (ok tt, record w { wallet = wallet_reducer w.wallet a })

  abbrev pub on_services : {A : Type 0} → Result A × W → World W → Result A × World W
  on_services (r, d) w = (r, record w { services = d })

  abbrev pub calling : {A : Type 0} → Run W A → Run (World W) A
  calling m w = on_services (m w.services) w

  -- `try { … } catch (error) { console.error(error); }`
  abbrev caught : Result (Unit {0}) × World W → Result (Unit {0}) × World W
  caught (ok u, w) = (ok u, w)
  caught (throw x, w) = (ok tt, w)

module _ {W : Type 0} (services : Services W) where
  open services use {get_balance, update_wallet_avatar, update_wallet_name, update_wallet_setup}

  unfoldable pub get_wallet_with_balance : Fields → Run (World W) Fields
  get_wallet_with_balance wallet = do
    balance ← calling (get_balance (get (codes "id") wallet))
    pure (put (codes "balance") balance wallet)

  unfoldable pub update_wallet_with_balance : Fields → Run (World W) (Unit {0})
  unfolding get_wallet_with_balance wallet_reducer
  update_wallet_with_balance wallet = do
    found ← get_wallet_with_balance wallet
    dispatch (Action.wallet_update found)

  abbrev selected : Run (World W) Fields
  unfolding get_wallet
  selected w = (ok (get_wallet services.times w.prices w.wallet), w)

  unfoldable pub refresh_wallet_balance : Run (World W) (Unit {0})
  unfolding get_wallet update_wallet_with_balance
  refresh_wallet_balance = do wallet ← selected; update_wallet_with_balance wallet

  unfoldable pub update_avatar : Value → Value → Run (World W) (Unit {0})
  unfolding get_wallet update_wallet_with_balance
  update_avatar avatar wallet_id w = caught (
      (do
        updated ← calling (update_wallet_avatar avatar wallet_id)
        wallet ← selected
        update_wallet_with_balance (put (codes "profilePicture") avatar wallet))
        w)

  unfoldable pub update_name : Value → Value → Run (World W) (Unit {0})
  unfolding get_wallet update_wallet_with_balance
  update_name name wallet_id w = caught (
      (do
        updated ← calling (update_wallet_name name wallet_id)
        wallet ← selected
        update_wallet_with_balance (put (codes "name") (get (codes "name") updated) wallet))
        w)

  unfoldable pub update_setup : Value → Value → Run (World W) (Unit {0})
  unfolding get_wallet update_wallet_with_balance
  update_setup setup wallet_id w = caught (
      (do
        updated ← calling (update_wallet_setup setup wallet_id)
        wallet ← selected
        update_wallet_with_balance
            (put (codes "isSetupFinished") (get (codes "isSetupFinished") updated) wallet))
        w)

-- Writing another field, or fields that do not have `k`, leaves `k`.
pub get-put_other :
    (k j : Text) (v : Value) (o : Fields) → (k == j) ≡ false → get k (put j v o) ≡ get k o
unfolding get put
get-put_other k j v end h = rw h refl
get-put_other k j v (field i w o) h = ground (arith, get-put_other k j v o h)

pub get-assign_other :
    (k : Text) (o p : Fields) → has_field k p ≡ false → get k (assign o p) ≡ get k o
unfolding assign has_field
get-assign_other k o end h = refl
get-assign_other k o (field j v p) h =
    let apart : (k == j) ≡ false = ground arith in
    get-assign_other k (put j v o) p (rw apart at h) ∙ get-put_other k j v o apart

pub has_field-put :
    (k j : Text) (v : Value) (o : Fields) → has_field k (put j v o) ≡ (k == j || has_field k o)
unfolding has_field put
has_field-put k j v end = refl
has_field-put k j v (field i w o) = ground (arith, has_field-put k j v o)

pub on_services-wallet :
    {W A : Type 0} (r : Result A × W) (w : World W) → (on_services r w).1.wallet ≡ w.wallet
on_services-wallet (ok a, d) w = refl
on_services-wallet (throw x, d) w = refl

pub on_services-ok :
    {W A : Type 0} (r : Result A × W) (w : World W) {a : A} {s : World W}
    → on_services r w ≡ (ok a, s)
    → (d : W) × (r ≡ (ok a, d))
on_services-ok (ok a', d) w h = (d, cc)
on_services-ok (throw x, d) w h = cc

-- What holds of the end of a call of a service, whether it throws or not, holds of the end.
continue-services :
    {W A B : Type 0} (P : Result B × World W → Type 0) (f : A → Run (World W) B) (r : Result A × W)
    (w : World W)
    → ((a : A) (d : W) → P (f a (record w { services = d })))
    → ((x : Exception) (d : W) → P (throw x, record w { services = d }))
    → P (continue f (on_services r w))
continue-services P f (ok a, d) w returns throws = returns a d
continue-services P f (throw x, d) w returns throws = throws x d
