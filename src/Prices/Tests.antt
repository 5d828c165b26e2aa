-- ===== src/Prices/Tests.antt =====
-- Updates of prices on concrete lists.
use identity_wallet.Common.{ℕ, ◌≡◌, some, [], ◌∷◌}
use identity_wallet.Common.Collection.Laws.{Distinct}
use identity_wallet.Schema.Text.{codes, text_eq}
use identity_wallet.Prices.{Price, State, Action, symbols, prices_reducer, get_by_symbol}
use identity_wallet.Prices.Latest.{find_last, prices_reducer-latest, prices_reducer-Distinct}

abbrev ether : ℕ → Price ℕ
ether n = record {
  symbol = codes "ETH";
  name = codes "Ethereum";
  price_usd = n;
  price_btc = 1;
  price_eth = 1;
}

abbrev key : ℕ → Price ℕ
key n = record {
  symbol = codes "KEY";
  name = codes "Selfkey";
  price_usd = n;
  price_btc = 0;
  price_eth = 0;
}

abbrev state : State ℕ
state = record { prices = ether 200 ∷ key 2 ∷ [] }

prices_reducer-latest_example :
    get_by_symbol
      (prices_reducer state (Action.prices_update (some (ether 300 ∷ ether 310 ∷ []))))
      (codes "ETH")
    ≡ some (ether 310)
unfolding find_last text_eq
prices_reducer-latest_example =
    prices_reducer-latest state (ether 300 ∷ ether 310 ∷ []) (codes "ETH")

prices_reducer-Distinct_example : Distinct (
    symbols
      (prices_reducer state (Action.prices_update (some (ether 300 ∷ ether 310 ∷ [])))).prices)
prices_reducer-Distinct_example =
    prices_reducer-Distinct state (Action.prices_update (some (ether 300 ∷ ether 310 ∷ [])))
