-- ===== src/TxHistory/Sync.antt =====
-- The history of a wallet: pages of the remote service are merged by hash, until a page is short.
-- `next` is an asynchronous function that nobody awaits, so if it throws, the promise around it never
-- settles.
pub mod Pages
use identity_wallet.Common.{
  ℕ, zero, suc, ◌+◌, Bool, true, false, ◌||◌, Option, none, some, List, [], ◌∷◌, ◌++◌, map,
  if◌then◌else◌, Result, ok, throw, type_error, ◌==◌, nat_eq, length,
}
use identity_wallet.Common.Dict.{Dict, lookup, insert}
use identity_wallet.Schema.Text.{Text, codes, text_eq, decimal, starts_with}
use identity_wallet.Schema.Value.{
  Value, undefined, null, num, str, arr, obj, Items, nil, cons, get, count_items, truthy, to_text,
  strict_eq,
}
use identity_wallet.Staking.Chain.{Run, pure, fail, ◌>>=◌, continue}
use identity_wallet.EthUtils.{lower}
use identity_wallet.TxHistory.Formats.{Txs, Services, prop, api_url, parse_hex, number}
use identity_wallet.TxHistory.Processing.{process_tx_history}

-- `OFFSET`, the length of a full page.
abbrev pub offset : ℕ
offset = 1000

-- `list.length === OFFSET`, of what has passed `concat`.
unfoldable pub is_full : Value → Bool
is_full (arr xs) = count_items xs == offset
is_full (str s) = length s == offset
is_full (obj o) = strict_eq (get (codes "length") o) (num offset)
is_full _ = false

abbrev pub known_txs : Option Txs → Txs
known_txs none = record { eth = undefined; token = undefined }
known_txs (some t) = t

unfoldable pub txs_of : Text → Dict Text Txs → Txs
unfolding lookup
txs_of hash d = known_txs (lookup hash d)

abbrev pub set_tx : Bool → Value → Txs → Txs
set_tx is_token tx t = if is_token then record t { token = tx } else record t { eth = tx }

-- `txHashes[hash]['token' or 'eth'] = tx`
unfoldable pub add_tx : Bool → Value → Dict Text Txs → Result (Dict Text Txs)
unfolding txs_of insert prop
add_tx is_token undefined d = throw type_error
add_tx is_token null d = throw type_error
add_tx is_token tx d =
    let hash = to_text (prop tx (codes "hash")) in
    ok (insert hash (set_tx is_token tx (txs_of hash d)) d)

unfoldable pub add_txs : Bool → Items → Dict Text Txs → Result (Dict Text Txs)
unfolding add_tx
add_txs is_token nil d = ok d
add_txs is_token (cons tx txs) d = elim (add_tx is_token tx d) [
  | ok d' ↦ add_txs is_token txs d'
  | throw x ↦ throw x
]

-- `ethTxList.concat(tokenTxList).forEach(…)`: the elements from `ethTxList.length` on are tokens'. What
-- is no array is appended as one element; a text has `concat`, but its result has no `forEach`.
unfoldable pub add_page : Value → Value → Dict Text Txs → Result (Dict Text Txs)
unfolding add_txs
add_page (arr eths) token_list d = elim (add_txs false eths d) [
  | ok d' ↦ add_txs true (elim token_list [ arr tokens ↦ tokens | other ↦ cons other nil ]) d'
  | throw x ↦ throw x
]
add_page _ token_list d = throw type_error

abbrev pub returning : {W A : Type 0} → Result A → Run W A
returning r w = (r, w)

-- What is asked of the service: the transactions of an address, from a block to a block.
pub record Query : Type 0 where
  pub address : Text
  pub start_block : Value
  pub end_block : Option ℕ

-- `${n}`
abbrev number_text : Option ℕ → Text
number_text none = codes "NaN"
number_text (some n) = decimal n

unfoldable pub action_url : ℕ → Text → Query → ℕ → Text
unfolding api_url
action_url network_id action q page =
    api_url network_id
    ++ codes "?module=account&action="
    ++ action
    ++ codes "&sort=desc&offset=1000&address="
    ++ q.address
    ++ codes "&startblock="
    ++ to_text q.start_block
    ++ codes "&endblock="
    ++ number_text q.end_block
    ++ codes "&page="
    ++ decimal page

module _ {W : Type 0} (services : Services W) (network_id : ℕ) where
  open services use {get_result}

  unfoldable pub load_eth_tx_history : Query → ℕ → Run W Value
  unfolding action_url
  load_eth_tx_history q page = get_result (action_url network_id (codes "txlist") q page)

  unfoldable pub load_erc_tx_history : Query → ℕ → Run W Value
  unfolding action_url
  load_erc_tx_history q page = get_result (action_url network_id (codes "tokentx") q page)

  unfoldable pub get_most_resent_block : Run W Value
  unfolding api_url
  get_most_resent_block =
      get_result (api_url network_id ++ codes "?module=proxy&action=eth_blockNumber")

  -- The rounds of `next` that load a page; none if the fuel runs out.
  unfoldable pub collect_pages : ℕ → Query → ℕ → Dict Text Txs → Run W (Option (Dict Text Txs))
  unfolding load_eth_tx_history load_erc_tx_history add_page is_full
  collect_pages zero q page d = pure none
  collect_pages (suc fuel) q page d = do
    eth_list ← load_eth_tx_history q page
    token_list ← load_erc_tx_history q page
    merged ← returning (add_page eth_list token_list d)
    let rest = collect_pages fuel q (page + 1) merged
    if is_full eth_list || is_full token_list then rest else pure (some merged)
