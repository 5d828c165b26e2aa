-- ===== src/TxHistory/Tests.antt =====
-- Runs of the synchronisation at concrete answers.
use identity_wallet.Common.{
  ℕ, zero, suc, ◌<◌, ◌≤◌, true, false, none, some, List, [], ◌∷◌, ◌≡◌, refl, arith, if◌then◌else◌,
  ok, throw, type_error, ◌==◌, nat_eq,
}
use identity_wallet.Common.Dict.{Dict}
use identity_wallet.Schema.Text.{Text, codes, text_eq, starts_with, decimal, drop_prefix}
use identity_wallet.Schema.Value.{
  Value, undefined, null, num, str, arr, obj, Items, nil, cons, Fields, end, field, get,
  count_items, to_text, truthy, put, strict_eq,
}
use identity_wallet.Staking.Chain.{to_number}
use identity_wallet.TxHistory.Formats.{Txs, Services, parse_hex}
use identity_wallet.TxHistory.Processing.{process_tx}
use identity_wallet.TxHistory.Sync.{
  Query, is_full, txs_of, load_eth_tx_history, load_erc_tx_history, collect_pages, add_page,
}
use identity_wallet.TxHistory.Sync.Pages.{last_tx, pages_in, collect_pages-last, Answers, has_next}
use identity_wallet.TxHistory.Jobs.{World, Tables, sync_by_wallet, is_syncing, pending}

abbrev transfer : Text → Value
transfer hash = obj (
    field (codes "hash") (str hash) (
      field (codes "from") (str (codes "0xAB"))
        (field (codes "to") (str (codes "0xCD")) (field (codes "value") (str (codes "5")) end))))

abbrev repeated_items : ℕ → Value → Items
repeated_items zero v = nil
repeated_items (suc n) v = cons v (repeated_items n v)

abbrev eths : ℕ → Items
eths page =
    if page == 1
    then repeated_items 1000 (transfer (codes "0x1"))
    else cons (transfer (codes "0x2")) nil

abbrev tokens : ℕ → Items
tokens page = if page == 1 then nil else cons (transfer (codes "0x1")) nil

abbrev last_char : Text → ℕ
last_char [] = 0
last_char (c ∷ []) = c
last_char (c ∷ d ∷ s) = last_char (d ∷ s)

abbrev answer : Text → Value
answer url =
    let page = if last_char url == b'1' then 1 else 2 in
    if starts_with (codes "https://api.etherscan.io/api?module=account&action=tokentx") url
    then arr (tokens page)
    else if starts_with (codes "https://api.etherscan.io/api?module=account&action=txlist") url
    then arr (eths page)
    else str (codes "0x1b")

-- The world holds the rows that were stored, the last one first. An amount is not divided.
abbrev services_with : (Text → Value) → Services (List Fields)
services_with answers = record {
  get_result = λ url w. (ok (answers url), w);
  contract_value = λ address method w. (throw type_error, w);
  transaction_count = λ address block w. (ok (num 0), w);
  add_or_update = λ row w. (ok tt, row ∷ w);
  unary_plus = λ v. elim (to_number v) [ none ↦ undefined | some n ↦ num n ];
  eth_amount = λ v. v;
  token_amount = λ v decimals. v;
}

abbrev query : Query
query = record { address = codes "0xab"; start_block = num 0; end_block = some 27 }

Answers-concrete : (p : ℕ) → 1 ≤ p → p ≤ 2 → Answers (services_with answer) 1 query eths tokens p
unfolding load_eth_tx_history load_erc_tx_history starts_with decimal to_text nat_eq
Answers-concrete zero l h = absurd (omega arith)
Answers-concrete (suc zero) l h = (λ w. refl, λ w. refl, tt, tt)
Answers-concrete (suc (suc zero)) l h = (λ w. refl, λ w. refl, tt, tt)
Answers-concrete (suc (suc (suc p))) l h = absurd (omega arith)

has_next-concrete :
    (p : ℕ) → 1 ≤ p → p < 2 → has_next (services_with answer) 1 query eths tokens p ≡ true
unfolding is_full nat_eq count_items
has_next-concrete zero l h = absurd (omega arith)
has_next-concrete (suc zero) l h = refl
has_next-concrete (suc (suc p)) l h = absurd (omega arith)

short_page : has_next (services_with answer) 1 query eths tokens 2 ≡ false
unfolding is_full nat_eq count_items
short_page = refl

collect_pages-last_example :
    (d : Dict Text Txs) × ((collect_pages (services_with answer) 1 3 query 1 [] []).0 ≡ ok (some d))
    × ((txs_of (codes "0x1") d).eth ≡ last_tx (codes "0x1") undefined (pages_in eths 1 2))
    × ((txs_of (codes "0x1") d).token ≡ last_tx (codes "0x1") undefined (pages_in tokens 1 2))
collect_pages-last_example =
    collect_pages-last (services_with answer) 1 query eths tokens 3 2 [] (codes "0x1") (omega arith)
      (omega arith) Answers-concrete has_next-concrete short_page

-- Where a limit of the service is exceeded, it answers with a text.
abbrev limited : Text → Value
limited url = str (codes "Max rate limit reached")

abbrev tables : Tables (List Fields)
tables = record {
  find_by_wallet_id =
      λ id w. (ok (some (record { id = 7; tx_history_last_synced_block = null })), w);
  update_by_id = λ id s w. (ok tt, field (codes "block") s.tx_history_last_synced_block end ∷ w);
  find_all = λ w. (ok (record { id = 3; public_key = codes "AB" } ∷ []), w);
  remove_not_mined_pending_txs = λ address nonce w. (ok tt, w);
}

abbrev world : World (List Fields)
world = record { services = []; is_syncing_map = []; syncing_job_is_started = false }

-- The promise of a synchronisation stays pending, and the wallet keeps its mark.
sync_by_wallet_stuck_test :
    (sync_by_wallet (services_with limited) tables 1 0 3 (codes "0xab") 3 true world).0 ≡ ok pending
unfolding sync_by_wallet collect_pages add_page
sync_by_wallet_stuck_test = refl

is_syncing_stuck_test :
    is_syncing
      (some (codes "0xab"))
      (sync_by_wallet (services_with limited) tables 1 0 3 (codes "0xab") 3 true world).1
    ≡ some true
unfolding sync_by_wallet collect_pages add_page is_syncing text_eq
is_syncing_stuck_test = refl

-- `parseInt('0x1b', 16)`
parse_hex_test : parse_hex (str (codes "0x1b")) ≡ some 27
unfolding parse_hex to_text nat_eq drop_prefix
parse_hex_test = refl

-- A transaction of Ether: the status of its receipt is asked for, since it has none.
abbrev one_tx : Text → Value
one_tx url =
    if starts_with (codes "https://api.etherscan.io/api?module=account&action=txlist") url
    then arr (cons (transfer (codes "0x1")) nil)
    else if starts_with (codes "https://api.etherscan.io/api?module=account&action=tokentx") url
    then arr nil
    else if starts_with (codes "https://api.etherscan.io/api?module=proxy&action=eth_block") url
    then str (codes "0x1b")
    else obj (field (codes "status") (str (codes "0x1")) end)

abbrev synced : World (List Fields)
synced = (sync_by_wallet (services_with one_tx) tables 1 0 3 (codes "0xab") 3 true world).1

abbrev stored_of : Text → List Fields → List Value
stored_of key [] = []
stored_of key (row ∷ rows) = get key row ∷ stored_of key rows

sync_by_wallet_stored_test :
    stored_of (codes "from") synced.services ≡ undefined ∷ str (codes "0xab") ∷ []
unfolding sync_by_wallet collect_pages add_page process_tx text_eq nat_eq starts_with decimal
    to_text get put is_full count_items truthy strict_eq to_number drop_prefix
sync_by_wallet_stored_test = refl

sync_by_wallet_status_test :
    stored_of (codes "txReceiptStatus") synced.services ≡ undefined ∷ num 1 ∷ []
unfolding sync_by_wallet collect_pages add_page process_tx text_eq nat_eq starts_with decimal
    to_text get put is_full count_items truthy strict_eq to_number drop_prefix
sync_by_wallet_status_test = refl
