-- ===== src/WalletTokens/Operations.antt =====
-- The operations. What is asked for all tokens at once is asked in their order.
use identity_wallet.Common.{
  suc, Option, List, [], ◌∷◌, map, ◌≡◌, refl, ap, ◌∙◌, length, Result, ok, throw,
}
use identity_wallet.Schema.Text.{codes}
use identity_wallet.Schema.Value.{Value, num, Fields, get, put}
use identity_wallet.Staking.Chain.{Run, ◌>>=◌}
use identity_wallet.Prices
use identity_wallet.Wallet.Store.{get_wallet}
use identity_wallet.WalletTokens.State.{
  State, Action, wallet_tokens_reducer, Amounts, get_tokens, priced,
}

-- The service for the tokens of a wallet.
pub record Services (W : Type 0) : Type 0 where
  pub get_wallet_tokens : Value → Run W (List Fields)
  pub get_token_balance : Value → Value → Run W Value
  pub create_wallet_token : Value → Value → Run W (Unit {0})
  pub update_state : Value → Value → Run W (Unit {0})

pub record World (W : Type 0) : Type 0 where
  pub services : W
  pub tokens : State
  pub wallet : Fields
  pub prices : Prices.State Value

module _ {W : Type 0} where
  abbrev pub dispatch : Action → Run (World W) (Unit {0})
  dispatch a w = (ok tt, record w { tokens = wallet_tokens_reducer w.tokens a })

  abbrev on_services : {A : Type 0} → Result A × W → World W → Result A × World W
  on_services (r, d) w = (r, record w { services = d })

  abbrev pub calling : {A : Type 0} → Run W A → Run (World W) A
  calling m w = on_services (m w.services) w

-- `try { … } catch (error) { … }`, of a balance that is 0 before.
abbrev pub or_zero : {W : Type 0} → Result Value × W → Value × W
or_zero (ok v, d) = (v, d)
or_zero (throw x, d) = (num 0, d)

module _ {W : Type 0} (services : Services W) (amounts : Amounts)
    (times : Value → Option Value → Value) where
  open services use {get_wallet_tokens, get_token_balance, create_wallet_token, update_state}

  unfoldable pub with_balance : Value → Fields → W → Fields × W
  with_balance public_key token d =
      let (balance, d') = or_zero (get_token_balance (get (codes "address") token) public_key d) in
      (
        put (codes "balanceInFiat") (amounts.times balance (get (codes "priceUSD") token))
            (put (codes "balance") balance token),
        d',
      )

  unfoldable pub get_wallet_tokens_with_balance : List Fields → Value → W → List Fields × W
  unfolding with_balance
  get_wallet_tokens_with_balance [] public_key d = ([], d)
  get_wallet_tokens_with_balance (token ∷ tokens) public_key d =
      let (token', d1) = with_balance public_key token d in
      let (tokens', d2) = get_wallet_tokens_with_balance tokens public_key d1 in
      (token' ∷ tokens', d2)

  abbrev set_tokens : List Fields × W → World W → Result (Unit {0}) × World W
  unfolding wallet_tokens_reducer
  set_tokens (tokens, d) w = dispatch (Action.tokens_set tokens) (record w { services = d })

  unfoldable pub update_wallet_tokens_with_balance : List Fields → Value → Run (World W) (Unit {0})
  unfolding get_wallet_tokens_with_balance wallet_tokens_reducer set_tokens
  update_wallet_tokens_with_balance tokens public_key w =
      set_tokens (get_wallet_tokens_with_balance tokens public_key w.services) w

  abbrev selected : World W → Fields
  unfolding get_wallet
  selected w = get_wallet times w.prices w.wallet

  unfoldable pub load_wallet_tokens : Run (World W) (Unit {0})
  unfolding update_wallet_tokens_with_balance get_wallet selected
  load_wallet_tokens w =
      let wallet = selected w in
      (do
        tokens ← calling (get_wallet_tokens (get (codes "id") wallet))
        update_wallet_tokens_with_balance tokens (get (codes "publicKey") wallet))
        w

  -- The list of `getTokens` begins with the wallet, and is stored as the tokens.
  unfoldable pub refresh_wallet_tokens_balance : Run (World W) (Unit {0})
  unfolding update_wallet_tokens_with_balance get_wallet get_tokens selected
  refresh_wallet_tokens_balance w =
      update_wallet_tokens_with_balance (get_tokens amounts w.prices (selected w) w.tokens)
        (get (codes "publicKey") (selected w)) w

  unfoldable pub create_wallet_token_operation : Value → Run (World W) (Unit {0})
  unfolding load_wallet_tokens get_wallet selected
  create_wallet_token_operation token_id w =
      (do
        created ← calling (create_wallet_token token_id (get (codes "id") (selected w)))
        load_wallet_tokens)
        w

  unfoldable pub update_wallet_token_state_operation : Value → Value → Run (World W) (Unit {0})
  unfolding load_wallet_tokens
  update_wallet_token_state_operation state token_id = do
    updated ← calling (update_state token_id state)
    load_wallet_tokens

  get_wallet_tokens_with_balance-length :
      (tokens : List Fields) (public_key : Value) (d : W)
      → length (get_wallet_tokens_with_balance tokens public_key d).0 ≡ length tokens
  unfolding get_wallet_tokens_with_balance
  get_wallet_tokens_with_balance-length [] public_key d = refl
  get_wallet_tokens_with_balance-length (token ∷ tokens) public_key d =
      ap suc (
        get_wallet_tokens_with_balance-length tokens public_key (with_balance public_key token d).1)

  priced-length :
      (prices : Prices.State Value) (tokens : List Fields)
      → length (map (priced amounts prices) tokens) ≡ length tokens
  priced-length prices [] = refl
  priced-length prices (t ∷ ts) = ap suc (priced-length prices ts)

  -- Each refresh makes the tokens of the store one more: the wallet is added to them.
  refresh_wallet_tokens_balance-length :
      (w : World W)
      → length (refresh_wallet_tokens_balance w).1.tokens.tokens ≡ suc (length w.tokens.tokens)
  unfolding refresh_wallet_tokens_balance
  refresh_wallet_tokens_balance-length w =
      get_wallet_tokens_with_balance-length (get_tokens amounts w.prices (selected w) w.tokens)
        (get (codes "publicKey") (selected w)) w.services
      ∙ ap suc (priced-length w.prices w.tokens.tokens)
