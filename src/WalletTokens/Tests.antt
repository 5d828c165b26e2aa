-- ===== src/WalletTokens/Tests.antt =====
-- Runs of the tokens of a wallet.
use identity_wallet.Common.{ℕ, false, some, [], ◌∷◌, map, ◌≡◌, refl, type_error, nat_eq, option_eq}
use identity_wallet.Schema.Text.{Text, codes, text_eq}
use identity_wallet.Schema.Value.{num, str, Fields, end, field, get, put, truthy, strict_eq}
use identity_wallet.Staking.Chain.{pure, fail}
use identity_wallet.WalletTokens.State.{
  initial_state, update_tokens, Amounts, get_visible_tokens, symbol,
}
use identity_wallet.WalletTokens.Operations.{
  Services, World, load_wallet_tokens, refresh_wallet_tokens_balance,
}

abbrev token : Text → ℕ → Fields
token s n =
    field (codes "symbol") (str s)
      (field (codes "recordState") (num 1) (field (codes "balance") (num n) end))

-- The later one of two tokens with a symbol stays.
update_tokens_test :
    update_tokens
      (token (codes "KEY") 1 ∷ token (codes "ABC") 2 ∷ [])
      (some (token (codes "KEY") 3 ∷ []))
    ≡ token (codes "ABC") 2 ∷ token (codes "KEY") 3 ∷ []
unfolding update_tokens get strict_eq text_eq nat_eq option_eq
update_tokens_test = refl

abbrev amounts : Amounts
amounts = record { times = λ a b. a; plus = λ a b. b }

-- A balance that cannot be asked for is 0.
abbrev services : Services Text
services = record {
  get_wallet_tokens = λ id. pure (token (codes "KEY") 7 ∷ []);
  get_token_balance = λ address key. fail type_error;
  create_wallet_token = λ token_id wallet_id. pure tt;
  update_state = λ id state. pure tt;
}

abbrev world : World Text
world = record {
  services = [];
  tokens = initial_state;
  wallet = end;
  prices = record { prices = [] };
}

abbrev loaded : World Text
loaded = (load_wallet_tokens services amounts (λ balance price. balance) world).1

load_wallet_tokens_test : map (get (codes "balance")) loaded.tokens.tokens ≡ num 0 ∷ []
unfolding load_wallet_tokens get put text_eq
load_wallet_tokens_test = refl

abbrev refreshed : World Text
refreshed = (refresh_wallet_tokens_balance services amounts (λ balance price. balance) loaded).1

refresh_wallet_tokens_balance_test :
    map symbol refreshed.tokens.tokens ≡ str (codes "ETH") ∷ str (codes "KEY") ∷ []
unfolding refresh_wallet_tokens_balance load_wallet_tokens get put text_eq
refresh_wallet_tokens_balance_test = refl

-- More than five tokens, the wallet among them, are summed up in one.
get_visible_tokens_test :
    map symbol (
      get_visible_tokens amounts
        (record { prices = [] })
        false
        (token (codes "ETH") 1)
        (record {
          tokens =
              token (codes "A") 1
              ∷ token (codes "B") 1
              ∷ token (codes "C") 1
              ∷ token (codes "D") 1
              ∷ token (codes "E") 1
              ∷ [];
          top_token_list_size = 5;
        }))
    ≡ str (codes "ETH")
      ∷ str (codes "A")
      ∷ str (codes "B")
      ∷ str (codes "C")
      ∷ str (codes "D")
      ∷ str (codes "OTHERS")
      ∷ []
unfolding get_visible_tokens get put truthy text_eq
get_visible_tokens_test = refl
