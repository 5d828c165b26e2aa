-- ===== src/TxHistory/Sync/Pages.antt =====
-- The pages that `next` loads end at the first short one, and the transactions that are merged are the
-- last ones of each hash.
use identity_wallet.Common.{
  ℕ, zero, suc, ◌+◌, ◌≤◌, ◌<◌, Bool, true, false, ◌||◌, Option, some, [], ◌≡◌, refl, arith, sym, ap,
  ◌∙◌, if◌then◌else◌, Result, ok, throw, ◌==◌, nat_eq, Bool-cases, inl, inr, eq_of_true,
}
use identity_wallet.Common.Dict.{Dict, insert, lookup-insert}
use identity_wallet.Schema.Text.{Text, codes, text_eq}
use identity_wallet.Schema.Value.{Value, undefined, obj, arr, Items, nil, cons, to_text}
use identity_wallet.Staking.Chain.{Run, continue, pure}
use identity_wallet.TxHistory.Formats.{Txs, Services, prop}
use identity_wallet.TxHistory.Sync.{
  is_full, known_txs, txs_of, set_tx, add_tx, add_txs, add_page, Query, load_eth_tx_history,
  load_erc_tx_history, collect_pages,
}

abbrev pub AllObjects : Items → Type 0
AllObjects nil = Unit
AllObjects (cons (obj o) xs) = AllObjects xs
AllObjects (cons _ xs) = ⊥

unfoldable pub append_items : Items → Items → Items
append_items nil ys = ys
append_items (cons x xs) ys = cons x (append_items xs ys)

-- The last transaction with a hash, `acc` if there is none.
unfoldable pub last_tx : Text → Value → Items → Value
unfolding prop
last_tx hash acc nil = acc
last_tx hash acc (cons tx txs) =
    last_tx hash (if hash == to_text (prop tx (codes "hash")) then tx else acc) txs

-- The transactions of `n` pages from a page on.
unfoldable pub pages_in : (ℕ → Items) → ℕ → ℕ → Items
unfolding append_items
pages_in f page zero = nil
pages_in f page (suc n) = append_items (f page) (pages_in f (page + 1) n)

last_tx-append :
    (hash : Text) (acc : Value) (xs ys : Items)
    → last_tx hash acc (append_items xs ys) ≡ last_tx hash (last_tx hash acc xs) ys
unfolding last_tx append_items
last_tx-append hash acc nil ys = refl
last_tx-append hash acc (cons x xs) ys =
    last_tx-append hash (if hash == to_text (prop x (codes "hash")) then x else acc) xs ys

abbrev get_tx : Bool → Txs → Value
get_tx is_token t = if is_token then t.token else t.eth

abbrev set_last : Text → Bool → Items → Txs → Txs
set_last hash is_token txs t = set_tx is_token (last_tx hash (get_tx is_token t) txs) t

txs_of-insert :
    (hash k : Text) (t : Txs) (d : Dict Text Txs)
    → txs_of hash (insert k t d) ≡ (if hash == k then t else txs_of hash d)
unfolding txs_of
txs_of-insert hash k t d =
    ap known_txs (lookup-insert hash k t d)
    ∙ elim (Bool-cases (hash == k)) [ inl same ↦ rw same refl | inr other ↦ rw other refl ]

set_last-nil : (hash : Text) (b : Bool) (t : Txs) → t ≡ set_last hash b nil t
unfolding last_tx
set_last-nil hash true t = refl
set_last-nil hash false t = refl

set_last-set_tx :
    (hash : Text) (b : Bool) (tx : Value) (txs : Items) (t : Txs)
    → set_last hash b txs (set_tx b tx t) ≡ set_tx b (last_tx hash tx txs) t
set_last-set_tx hash true tx txs t = refl
set_last-set_tx hash false tx txs t = refl

set_last-cons :
    (hash k : Text) (b : Bool) (tx : Value) (txs : Items) (d : Dict Text Txs)
    → k ≡ to_text (prop tx (codes "hash"))
    → set_last hash b txs (txs_of hash (insert k (set_tx b tx (txs_of k d)) d))
      ≡ set_last hash b (cons tx txs) (txs_of hash d)
unfolding last_tx
set_last-cons hash k b tx txs d e =
    ap (set_last hash b txs) (txs_of-insert hash k (set_tx b tx (txs_of k d)) d)
    ∙ elim (Bool-cases (hash == k)) [
      | inl same ↦
          let found = eq_of_true hash k same in
          rw (← e, same)
            (set_last-set_tx hash b tx txs (txs_of k d)
              ∙ ap (λ j. set_tx b (last_tx hash tx txs) (txs_of j d)) (sym found))
      | inr other ↦ rw (← e, other) refl
    ]

add_txs-last :
    (b : Bool) (xs : Items) (d : Dict Text Txs)
    → AllObjects xs
    → (d' : Dict Text Txs) × (add_txs b xs d ≡ ok d')
      × ((hash : Text) → txs_of hash d' ≡ set_last hash b xs (txs_of hash d))
unfolding add_txs add_tx
add_txs-last b nil d h = (d, refl, λ hash. set_last-nil hash b (txs_of hash d))
add_txs-last b (cons (obj o) xs) d h =
    let k = to_text (prop (obj o) (codes "hash")) in
    let (d', added, last) = add_txs-last b xs (insert k (set_tx b (obj o) (txs_of k d)) d) h in
    (d', added, λ hash. last hash ∙ set_last-cons hash k b (obj o) xs d refl)
add_txs-last b (cons undefined xs) d h = elim h [ ]
add_txs-last b (cons Value.null xs) d h = elim h [ ]
add_txs-last b (cons (Value.bool _) xs) d h = elim h [ ]
add_txs-last b (cons (Value.num _) xs) d h = elim h [ ]
add_txs-last b (cons (Value.str _) xs) d h = elim h [ ]
add_txs-last b (cons (arr _) xs) d h = elim h [ ]

-- A page of two arrays.
add_page-last :
    (eths tokens : Items) (d : Dict Text Txs)
    → AllObjects eths
    → AllObjects tokens
    → (d' : Dict Text Txs) × (add_page (arr eths) (arr tokens) d ≡ ok d')
      × ((hash : Text)
          → txs_of hash d' ≡ record {
            eth = last_tx hash (txs_of hash d).eth eths;
            token = last_tx hash (txs_of hash d).token tokens;
          })
unfolding add_page
add_page-last eths tokens d h k =
    let (d1, added, last) = add_txs-last false eths d h in
    let (d2, added', last') = add_txs-last true tokens d1 k in
    (
      d2,
      rw (add_page, added) added',
      λ hash. last' hash ∙ ap (set_last hash true tokens) (last hash),
    )

continue-returns :
    {W A B : Type 0} (f : A → Run W B) (r : Result A × W) {a : A} {b : Result B}
    → r.0 ≡ ok a
    → ((w : W) → (f a w).0 ≡ b)
    → (continue f r).0 ≡ b
continue-returns f (ok a', w) e next = cc (next w)
continue-returns f (throw x, w) e next = cc

module _ {W : Type 0} (services : Services W) (network_id : ℕ) (q : Query)
    (eths tokens : ℕ → Items) where
  -- The answers for a page are two arrays of objects.
  abbrev pub Answers : ℕ → Type 0
  Answers page =
      ((w : W) → (load_eth_tx_history services network_id q page w).0 ≡ ok (arr (eths page)))
      × ((w : W) → (load_erc_tx_history services network_id q page w).0 ≡ ok (arr (tokens page)))
      × AllObjects (eths page)
      × AllObjects (tokens page)

  abbrev pub has_next : ℕ → Bool
  has_next page = is_full (arr (eths page)) || is_full (arr (tokens page))

  abbrev LastOf : ℕ → ℕ → Dict Text Txs → Dict Text Txs → Type 0
  LastOf page n d d' =
      (hash : Text)
      → txs_of hash d' ≡ record {
        eth = last_tx hash (txs_of hash d).eth (pages_in eths page n);
        token = last_tx hash (txs_of hash d).token (pages_in tokens page n);
      }

  LastOf-none : (page : ℕ) (d : Dict Text Txs) → LastOf page 0 d d
  unfolding pages_in last_tx
  LastOf-none page d hash = refl

  LastOf-step :
      (page n : ℕ) (d d1 d2 : Dict Text Txs)
      → ((hash : Text)
          → txs_of hash d1 ≡ record {
            eth = last_tx hash (txs_of hash d).eth (eths page);
            token = last_tx hash (txs_of hash d).token (tokens page);
          })
      → LastOf (page + 1) n d1 d2
      → LastOf page (suc n) d d2
  unfolding pages_in
  LastOf-step page n d d1 d2 first rest hash =
      rest hash
      ∙ rw
          (
            last_tx-append hash (txs_of hash d).eth (eths page) (pages_in eths (page + 1) n),
            last_tx-append hash (txs_of hash d).token (tokens page) (pages_in tokens (page + 1) n),
            first hash,
          )
          refl

  -- A round with the answers for its page goes on as it does with the merged page.
  collect_pages-round :
      (fuel page : ℕ) (d : Dict Text Txs)
      → Answers page
      → (d1 : Dict Text Txs) × ((hash : Text)
          → txs_of hash d1 ≡ record {
            eth = last_tx hash (txs_of hash d).eth (eths page);
            token = last_tx hash (txs_of hash d).token (tokens page);
          })
        × ((b : Result (Option (Dict Text Txs)))
            → ((w : W)
                → ((if has_next page
                      then collect_pages services network_id fuel q (page + 1) d1
                      else pure (some d1))
                    w).0
                  ≡ b)
            → (w : W) → (collect_pages services network_id (suc fuel) q page d w).0 ≡ b)
  unfolding collect_pages
  collect_pages-round fuel page d (eth, token, h, k) =
      let (d1, added, first) = add_page-last (eths page) (tokens page) d h k in
      (
        d1,
        first,
        λ b goes_on w.
            continue-returns _ (load_eth_tx_history services network_id q page w) (eth w) (λ w1.
              continue-returns _ (load_erc_tx_history services network_id q page w1) (token w1)
                (λ w2. rw added (goes_on w2))),
      )

  collect_pages-from :
      (fuel n page last : ℕ) (d : Dict Text Txs)
      → n < fuel
      → page + n ≡ last
      → ((p : ℕ) → page ≤ p → p ≤ last → Answers p)
      → ((p : ℕ) → page ≤ p → p < last → has_next p ≡ true)
      → has_next last ≡ false
      → (d' : Dict Text Txs) × ((w : W)
          → (collect_pages services network_id fuel q page d w).0 ≡ ok (some d'))
        × LastOf page (suc n) d d'
  unfolding collect_pages
  collect_pages-from zero n page last d lt e answers full short = absurd (omega arith)
  collect_pages-from (suc fuel) zero page last d lt e answers full short =
      let page_last : page ≡ last = omega arith in
      let (d1, first, round) =
        collect_pages-round fuel page d (answers page (omega arith) (omega arith)) in
      (
        d1,
        round (ok (some d1)) (λ w. rw (page_last, short) refl),
        LastOf-step page 0 d d1 d1 first (LastOf-none (page + 1) d1),
      )
  collect_pages-from (suc fuel) (suc n) page last d lt e answers full short =
      let (d1, first, round) =
        collect_pages-round fuel page d (answers page (omega arith) (omega arith)) in
      let (d2, rest, more) =
        collect_pages-from fuel n (page + 1) last d1 (omega arith) (omega arith)
          (λ p l. answers p (omega arith)) (λ p l. full p (omega arith)) short in
      (
        d2,
        round (ok (some d2)) (λ w. rw (full page (omega arith) (omega arith)) (rest w)),
        LastOf-step page (suc n) d d1 d2 first more,
      )

  -- If the answers for the pages up to a first short one are arrays of objects, the synchronisation
  -- loads no further page, and has for each hash the last transaction of Ether and the last one of
  -- tokens with that hash.
  pub collect_pages-last :
      (fuel last : ℕ) (w : W) (hash : Text)
      → 0 < last
      → last ≤ fuel
      → ((p : ℕ) → 1 ≤ p → p ≤ last → Answers p)
      → ((p : ℕ) → 1 ≤ p → p < last → has_next p ≡ true)
      → has_next last ≡ false
      → (d : Dict Text Txs) × ((collect_pages services network_id fuel q 1 [] w).0 ≡ ok (some d))
        × ((txs_of hash d).eth ≡ last_tx hash undefined (pages_in eths 1 last))
        × ((txs_of hash d).token ≡ last_tx hash undefined (pages_in tokens 1 last))
  unfolding txs_of
  collect_pages-last fuel zero w hash pos le answers full short = absurd (omega arith)
  collect_pages-last fuel (suc n) w hash pos le answers full short =
      let (d, returns, last) =
        collect_pages-from fuel n 1 (suc n) [] (omega arith) (omega arith) answers full short in
      (d, returns w, ap (λ t. t.eth) (last hash), ap (λ t. t.token) (last hash))
