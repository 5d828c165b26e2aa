-- ===== src/Prices.antt =====
-- Prices of tokens: src/common/prices/{reducers,actions,selectors}.js. A price in a currency is a
-- decimal number, and of any type here, since the code only copies it.
use identity_wallet.Common.{
  ℕ, zero, suc, Option, none, some, List, [], ◌∷◌, ◌++◌, map, if◌then◌else◌, ◌==◌, Bool, find,
  nat_eq, option_eq,
}
use identity_wallet.Schema.Text.{Text, text_eq}
pub mod Latest
pub mod Service
mod Tests

pub record Price (N : Type 0) : Type 0 where
  pub symbol : Text
  pub name : Text
  pub price_usd : N
  pub price_btc : N
  pub price_eth : N

pub record State (N : Type 0) : Type 0 where
  pub prices : List (Price N)

-- `action.payload`; `none` for one that is missing.
pub data Action (N : Type 0) : Type 0 where
  prices_update : Option (List (Price N)) → Action N

-- `xs.lastIndexOf(x)`, with `none` for -1.
unfoldable pub last_index_of : List Text → Text → Option ℕ
last_index_of [] x = none
last_index_of (y ∷ ys) x = elim (last_index_of ys x) [
  | some i ↦ some (suc i)
  | none ↦ if y == x then some 0 else none
]

-- `xs.filter((value, pos) => p(value, pos))`, where the first position is `pos`.
unfoldable pub filter_at : {A : Type 0} → (A → ℕ → Bool) → ℕ → List A → List A
filter_at p pos [] = []
filter_at p pos (x ∷ xs) = let rest = filter_at p (suc pos) xs in if p x pos then x ∷ rest else rest

module _ {N : Type 0} where
  abbrev pub symbols : List (Price N) → List Text
  symbols = map (λ p. p.symbol)

  unfoldable pub update_price : List (Price N) → Option (List (Price N)) → List (Price N)
  update_price old none = []
  update_price old (some new) =
      let arr = old ++ new in
      filter_at (λ value pos. last_index_of (symbols arr) value.symbol == some pos) 0 arr

  unfoldable pub prices_reducer : State N → Action N → State N
  prices_reducer s (Action.prices_update new) = record s { prices = update_price s.prices new }

  unfoldable pub get_by_symbol : State N → Text → Option (Price N)
  get_by_symbol s symbol = find (λ p. p.symbol == symbol) s.prices
