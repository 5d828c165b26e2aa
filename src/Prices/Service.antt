-- ===== src/Prices/Service.antt =====
-- src/main/token/price-service.js, over an interface to the remote service and the tables. The number of
-- a value, and the quotient of two numbers, are arguments.
mod Tests
use identity_wallet.Common.{
  ℕ, Bool, true, false, ◌&&◌, not, Option, none, some, List, [], ◌∷◌, ◌++◌, map, filter,
  if◌then◌else◌, ◌==◌, ◌≡◌, refl, is_some, length, arith, Result, ok, throw, Exception, type_error,
}
use identity_wallet.Common.Dict.{Dict, lookup, insert}
use identity_wallet.Schema.Text.{Text, codes, text_eq}
use identity_wallet.Schema.Value.{
  Value, undefined, num, str, Fields, end, field, get, put, strict_eq, to_text,
}
use identity_wallet.Staking.Chain.{Run, pure, fail, ◌>>=◌}

pub record Services (W : Type 0) : Type 0 where
  pub fetch_front : Run W (List Fields)
  pub find_all : Run W (List Fields)
  pub find_by_symbol : Value → Run W (Option Fields)
  pub bulk_add : List Fields → Run W (Unit {0})
  pub bulk_edit : List Fields → Run W (Unit {0})
  pub find_token : Value → Run W (List Fields)
  pub find_wallet_token : Value → Run W (List Fields)
  pub to_number : Value → Value
  pub over : Value → Value → Value

-- `existing` is read by symbols. What was emitted is in front, the last first.
pub record World (W : Type 0) : Type 0 where
  pub services : W
  pub connected : Bool
  pub existing : Dict Text Fields
  pub updated_prices : List (Option Fields)
  pub broadcast_timeout : Bool
  pub emitted : List (List (Option Fields))

abbrev short : Fields → Value
short row = get (codes "short") row

-- `+data.find(row => row.short === symbol).price`
unfoldable pub price_for : (Value → Value) → Text → List Fields → Result Value
unfolding strict_eq
price_for to_number s [] = throw type_error
price_for to_number s (row ∷ rows) =
    let rest = price_for to_number s rows in
    if strict_eq (short row) (str s) then ok (to_number (get (codes "price") row)) else rest

unfoldable pub index_rows : Dict Text Fields → List Fields → Dict Text Fields
unfolding insert
index_rows d [] = d
index_rows d (row ∷ rows) = index_rows (insert (to_text (get (codes "symbol") row)) row d) rows

-- `Object.assign(row, { id })`, of the row itself, if there is one with its symbol.
unfoldable pub with_id : Dict Text Fields → Fields → Fields
unfolding lookup
with_id d row = elim (lookup (to_text (get (codes "symbol") row)) d) [
  | none ↦ row
  | some old ↦ put (codes "id") (get (codes "id") old) row
]

unfoldable pub is_known : Dict Text Fields → Fields → Bool
unfolding lookup
is_known d row = is_some (lookup (to_text (get (codes "symbol") row)) d)

abbrev or_throw : Option Fields → Result Fields
or_throw none = throw type_error
or_throw (some o) = ok o

module _ {W : Type 0} (services : Services W) where
  open services use {to_number, over}

  abbrev on_services : {A : Type 0} → Result A × W → World W → Result A × World W
  on_services (r, d) w = (r, record w { services = d })

  abbrev calling : {A : Type 0} → Run W A → Run (World W) A
  calling m w = on_services (m w.services) w

  abbrev settled : {A : Type 0} → Result A → Run (World W) A
  settled r w = (r, w)

  unfoldable pub new_row : Value → Value → Fields → Fields
  new_row btc eth row =
      let usd = to_number (get (codes "price") row) in
      field (codes "name") (get (codes "long") row) (
        field (codes "symbol") (short row) (
          field (codes "source") (str (codes "https://coincap.io")) (
            field (codes "priceUSD") usd (
              field (codes "priceBTC") (over usd btc)
                (field (codes "priceETH") (over usd eth) end)))))

  -- The rows that are new, and those that are known with their ids; both are emitted.
  unfoldable pub store_prices : List Fields → Run (World W) (Unit {0})
  unfolding price_for new_row index_rows is_known with_id
  store_prices rows = do
    btc ← settled (price_for to_number (codes "BTC") rows)
    eth ← settled (price_for to_number (codes "ETH") rows)
    let fresh = map (new_row btc eth) rows
    old ← calling services.find_all
    let known = index_rows [] old
    kept ← (λ w. (ok tt, record w { existing = known }))
    added ← calling (services.bulk_add (filter (λ row. not (is_known known row)) fresh))
    edited ← calling (services.bulk_edit (map (with_id known) (filter (is_known known) fresh)))
    (λ w. (ok tt, record w { emitted = map (λ row. some (with_id known row)) fresh ∷ w.emitted }))

  abbrev unless_empty : List Fields → Run (World W) (Unit {0})
  unfolding store_prices
  unless_empty [] = pure tt
  unless_empty (row ∷ rows) = store_prices (row ∷ rows)

  unfoldable pub load_price_data : Run (World W) (Unit {0})
  unfolding store_prices unless_empty
  load_price_data = do rows ← calling services.fetch_front; unless_empty rows

  -- A token that the application knows, and that some wallet has; Ether is always followed.
  abbrev is_held : List Fields → Run (World W) Bool
  is_held [] = pure false
  is_held (token ∷ tokens) = do
    held ← calling (services.find_wallet_token (get (codes "id") token))
    pure (elim held [ [] ↦ false | t ∷ ts ↦ true ])

  unfoldable pub is_followed : Value → Run (World W) Bool
  unfolding strict_eq
  is_followed v =
      if strict_eq v (str (codes "ETH"))
      then pure true
      else (do found ← calling (services.find_token v); is_held found)

  -- A row of prices has no field `price`, so any price but a missing one is a new one.
  unfoldable pub update_from_trade : Value → Fields → Fields → Run (World W) (Unit {0})
  update_from_trade now trade old = do
    btc ← calling (services.find_by_symbol (str (codes "BTC")))
    eth ← calling (services.find_by_symbol (str (codes "ETC")))
    btc_row ← settled (or_throw btc)
    let usd = to_number (get (codes "price") trade)
    eth_row ← settled (or_throw eth)
    let row = field (codes "id") (get (codes "id") old) (
        field (codes "name") (get (codes "long") trade) (
          field (codes "symbol") (short trade) (
            field (codes "source") (str (codes "https://coincap.io")) (
              field (codes "priceUSD") usd (
                field (codes "priceBTC") (over usd (get (codes "price") btc_row)) (
                  field (codes "priceETH") (over usd (get (codes "price") eth_row))
                    (field (codes "updatedAt") now end)))))))
    edited ← calling (services.bulk_edit (row ∷ []))
    updated ← calling (services.find_by_symbol (short trade))
    (λ w. (ok tt, record w { updated_prices = w.updated_prices ++ updated ∷ [] }))

  abbrev trade_known : Value → Fields → Bool → Option Fields → Run (World W) (Unit {0})
  unfolding update_from_trade strict_eq
  trade_known now trade false old = pure tt
  trade_known now trade true none = pure tt
  trade_known now trade true (some old) =
      if strict_eq (get (codes "price") old) (get (codes "price") trade)
      then pure tt
      else update_from_trade now trade old

  unfoldable pub on_trade : Value → Fields → Run (World W) (Unit {0})
  unfolding is_followed update_from_trade trade_known lookup
  on_trade now trade = do
    followed ← is_followed (short trade)
    existing ← (λ w. (ok w.existing, w))
    trade_known now trade followed (lookup (to_text (short trade)) existing)

  -- The timeout before is cleared, and a new one is set.
  unfoldable pub start_price_broadcast : World W → World W
  start_price_broadcast w = record w {
    emitted = elim w.updated_prices [ [] ↦ w.emitted | p ∷ ps ↦ (p ∷ ps) ∷ w.emitted ];
    updated_prices = [];
    broadcast_timeout = true;
  }

  unfoldable pub start_update_data : Run (World W) (Unit {0})
  unfolding load_price_data start_price_broadcast
  start_update_data = do
    loaded ← load_price_data
    (λ w. (ok tt, start_price_broadcast (record w { connected = true })))

  unfoldable pub destroy : World W → World W
  destroy w = if w.connected then record w { broadcast_timeout = false } else w
