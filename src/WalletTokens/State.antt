-- ===== src/WalletTokens/State.antt =====
-- The state, the reducer and the selectors. Products and sums of amounts are arguments.
use identity_wallet.Common.{
  ℕ, zero, suc, Bool, not, Option, none, some, List, [], ◌∷◌, ◌++◌, map, filter, if◌then◌else◌,
  ◌==◌, nat_eq, option_eq,
}
use identity_wallet.Schema.Text.{Text, codes, text_eq}
use identity_wallet.Schema.Value.{Value, num, str, Fields, end, field, get, put, truthy, strict_eq}
use identity_wallet.Prices
use identity_wallet.Prices.{filter_at}

pub record State : Type 0 where
  pub tokens : List Fields
  pub top_token_list_size : ℕ

abbrev pub initial_state : State
initial_state = record { tokens = []; top_token_list_size = 5 }

pub data Action : Type 0 where
  tokens_update : Option (List Fields) → Action
  tokens_set : List Fields → Action

abbrev pub symbol : Fields → Value
symbol o = get (codes "symbol") o

-- `xs.lastIndexOf(v)`
unfoldable pub last_index_of : List Value → Value → Option ℕ
unfolding strict_eq
last_index_of [] v = none
last_index_of (x ∷ xs) v = elim (last_index_of xs v) [
  | some i ↦ some (suc i)
  | none ↦ if strict_eq x v then some 0 else none
]

unfoldable pub update_tokens : List Fields → Option (List Fields) → List Fields
unfolding last_index_of filter_at
update_tokens old none = []
update_tokens old (some new) =
    let arr = old ++ new in
    filter_at (λ value pos. last_index_of (map symbol arr) (symbol value) == some pos) 0 arr

unfoldable pub wallet_tokens_reducer : State → Action → State
unfolding update_tokens
wallet_tokens_reducer s (Action.tokens_update new) = record s {
  tokens = update_tokens s.tokens new;
}
wallet_tokens_reducer s (Action.tokens_set tokens) = record s { tokens = tokens }

-- The reducer of the switch between all tokens and the top ones.
unfoldable pub toggle_view_all_reducer : Bool → Bool
toggle_view_all_reducer payload = not payload

pub record Amounts : Type 0 where
  pub times : Value → Value → Value
  pub plus : Value → Value → Value

abbrev take : {A : Type 0} → ℕ → List A → List A
take zero xs = []
take (suc n) [] = []
take (suc n) (x ∷ xs) = x ∷ take n xs

abbrev drop : {A : Type 0} → ℕ → List A → List A
drop zero xs = xs
drop (suc n) [] = []
drop (suc n) (x ∷ xs) = drop n xs

-- `prices.filter(price => price.symbol === token.symbol)[0]`, and 0 without one.
unfoldable pub price_of : List (Prices.Price Value) → Value → Value
unfolding strict_eq
price_of [] v = num 0
price_of (p ∷ ps) v =
    let rest = price_of ps v in if strict_eq (str p.symbol) v then p.price_usd else rest

module _ (amounts : Amounts) (prices : Prices.State Value) where
  open amounts use {times, plus}

  unfoldable pub priced : Fields → Fields
  unfolding price_of
  priced token =
      let price = price_of prices.prices (symbol token) in
      let name = get (codes "name") token in
      put (codes "name") (if truthy name then name else str (codes "Token")) (
        put (codes "price") price
          (put (codes "balanceInFiat") (times (get (codes "balance") token) price) token))

  -- The wallet is the first of the tokens.
  unfoldable pub get_tokens : Fields → State → List Fields
  unfolding priced
  get_tokens wallet s = wallet ∷ map priced s.tokens

  unfoldable pub get_tokens_for_display : Fields → State → List Fields
  unfolding get_tokens
  get_tokens_for_display wallet s =
      filter (λ token. truthy (get (codes "recordState") token)) (get_tokens wallet s)

  -- `reduce((a, b) => a + b[balanceType], sum)`
  unfoldable pub get_others_token_balance : Text → Value → List Fields → Value
  get_others_token_balance balance_type sum [] = sum
  get_others_token_balance balance_type sum (token ∷ tokens) =
      get_others_token_balance balance_type (plus sum (get balance_type token)) tokens

  unfoldable pub get_others_token : List Fields → Fields
  unfolding get_others_token_balance
  get_others_token tokens = field (codes "name") (str (codes "Others")) (
      field (codes "symbol") (str (codes "OTHERS")) (
        field (codes "balance") (get_others_token_balance (codes "balance") (num 0) tokens) (
          field (codes "balanceInFiat")
            (get_others_token_balance (codes "balanceInFiat") (num 0) tokens) end)))

  unfoldable pub with_others : List Fields → List Fields → List Fields
  unfolding get_others_token
  with_others top [] = top
  with_others top (token ∷ tokens) = top ++ get_others_token (token ∷ tokens) ∷ []

  unfoldable pub get_filtered_tokens : Fields → State → List Fields
  unfolding get_tokens_for_display with_others
  get_filtered_tokens wallet s =
      let tokens = get_tokens_for_display wallet s in
      with_others (take s.top_token_list_size tokens) (drop s.top_token_list_size tokens)

  unfoldable pub get_visible_tokens : Bool → Fields → State → List Fields
  unfolding get_filtered_tokens
  get_visible_tokens view_all wallet s =
      if view_all then get_tokens_for_display wallet s else get_filtered_tokens wallet s
