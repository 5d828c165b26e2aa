-- ===== src/Prices/Service/Tests.antt =====
-- A run of the service of prices: one token is known, another is new, and a trade is priced.
use identity_wallet.Common.{ℕ, false, some, List, [], ◌∷◌, ◌≡◌, refl, ok}
use identity_wallet.Common.Dict.{lookup, insert}
use identity_wallet.Schema.Text.{Text, codes, text_eq}
use identity_wallet.Schema.Value.{Value, num, str, Fields, end, field, get, put, strict_eq, to_text}
use identity_wallet.Staking.Chain.{pure}
use identity_wallet.Prices.Service.{Services, World, load_price_data, on_trade}

abbrev offered : Text → ℕ → Fields
offered s n = field (codes "short") (str s) (field (codes "price") (num n) end)

abbrev priced : Text → ℕ → Fields
priced s n =
    field (codes "id") (num 1)
      (field (codes "symbol") (str s) (field (codes "priceUSD") (num n) end))

-- The world is the rows that were added and edited, and the symbols that were asked for.
abbrev Log : Type 0
Log = List Value

abbrev symbols_of : List Fields → Log → Log
symbols_of [] log = log
symbols_of (row ∷ rows) log = symbols_of rows (get (codes "symbol") row ∷ log)

abbrev services : Services Log
services = record {
  fetch_front = pure (offered (codes "BTC") 4000 ∷ offered (codes "ETH") 100 ∷ []);
  find_all = pure (priced (codes "ETH") 90 ∷ []);
  find_by_symbol = λ v log. (ok (some (priced (codes "ETC") 5)), v ∷ log);
  bulk_add = λ rows log. (ok tt, str (codes "add") ∷ symbols_of rows log);
  bulk_edit = λ rows log. (ok tt, str (codes "edit") ∷ symbols_of rows log);
  find_token = λ v. pure [];
  find_wallet_token = λ v. pure [];
  to_number = λ v. v;
  over = λ a b. b;
}

abbrev world : World Log
world = record {
  services = [];
  connected = false;
  existing = [];
  updated_prices = [];
  broadcast_timeout = false;
  emitted = [];
}

abbrev loaded : World Log
loaded = (load_price_data services world).1

load_price_data_test :
    loaded.services
    ≡ str (codes "edit") ∷ str (codes "ETH") ∷ str (codes "add") ∷ str (codes "BTC") ∷ []
unfolding load_price_data get put text_eq strict_eq to_text lookup insert
load_price_data_test = refl

-- The price in Ether is asked for by the symbol of Ether Classic.
on_trade_test :
    (on_trade services (num 0) (offered (codes "ETH") 110) loaded).1.services
    ≡ str (codes "ETH")
      ∷ str (codes "edit")
      ∷ str (codes "ETH")
      ∷ str (codes "ETC")
      ∷ str (codes "BTC")
      ∷ loaded.services
unfolding load_price_data on_trade get put text_eq strict_eq to_text lookup insert
on_trade_test = refl
