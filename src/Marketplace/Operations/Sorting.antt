-- ===== src/Marketplace/Operations/Sorting.antt =====
-- The order of the transactions that `loadTransactionsOperation` stores.
use identity_wallet.Common.{
  ◌≡◌, refl, ◌∙◌, none, List, [], ◌∷◌, ◌++◌, append-nil, append_assoc, All,
}
use identity_wallet.Marketplace.State.{Transaction}
use identity_wallet.Marketplace.Operations.{insert_transaction, sort_transactions}

insert_transaction-none :
    (t : Transaction) (xs : List Transaction)
    → t.time_stamp ≡ none
    → insert_transaction t xs ≡ xs ++ t ∷ []
unfolding insert_transaction
insert_transaction-none t [] h = refl
insert_transaction-none t (x ∷ xs) h = simp (h, insert_transaction-none t xs h)

sort_transactions-from :
    (ts acc : List Transaction)
    → All (λ t. t.time_stamp ≡ none) ts
    → sort_transactions acc ts ≡ acc ++ ts
unfolding sort_transactions
sort_transactions-from [] acc h = simp (append-nil)
sort_transactions-from (t ∷ ts) acc (h, hs) =
    sort_transactions-from ts (insert_transaction t acc) hs
    ∙ simp (insert_transaction-none t acc h, append_assoc acc (t ∷ []) ts)

-- Transactions without a time stamp, as the table has none, keep the order in which they are loaded.
pub sort_transactions-none :
    (ts : List Transaction) → All (λ t. t.time_stamp ≡ none) ts → sort_transactions [] ts ≡ ts
sort_transactions-none ts h = sort_transactions-from ts [] h
