-- ===== src/Prices/Latest.antt =====
-- An update of prices keeps the latest price of each symbol.
use identity_wallet.Common.{
  ℕ, suc, ◌+◌, ◌≡◌, refl, sym, ap, ◌∙◌, Option, none, some, List, [], ◌∷◌, ◌++◌, if◌then◌else◌,
  ◌==◌, Bool, find, nat_eq, option_eq, arith, contains, not, eq_refl, is_some, subst,
}
use identity_wallet.Common.Collection.Laws.{Distinct}
use identity_wallet.Schema.Text.{Text, text_eq}
use identity_wallet.Prices.{
  Price, State, Action, last_index_of, filter_at, symbols, update_price, prices_reducer,
  get_by_symbol,
}

last_index_of-suc :
    (y x : Text) (ys : List Text) (i : ℕ)
    → (last_index_of (y ∷ ys) x == some (suc i)) ≡ (last_index_of ys x == some i)
unfolding last_index_of
last_index_of-suc y x ys i = ground arith

last_index_of-none :
    (x : Text) (ys : List Text) → (last_index_of ys x == none) ≡ not (contains ys x)
unfolding last_index_of
last_index_of-none x [] = eq_refl {A = Option ℕ} none
last_index_of-none x (y ∷ ys) = ground (arith, last_index_of-none x ys)

last_index_of-zero :
    (y : Text) (ys : List Text) → (last_index_of (y ∷ ys) y == some 0) ≡ not (contains ys y)
unfolding last_index_of
last_index_of-zero y ys = ground (arith, last_index_of-none y ys)

module _ {N : Type 0} where
  -- The last price of a symbol.
  unfoldable pub find_last : List (Price N) → Text → Option (Price N)
  find_last [] symbol = none
  find_last (p ∷ ps) symbol = elim (find_last ps symbol) [
    | some q ↦ some q
    | none ↦ if p.symbol == symbol then some p else none
  ]

  -- The prices that no later one replaces.
  unfoldable keep_last : List (Price N) → List (Price N)
  keep_last [] = []
  keep_last (p ∷ ps) =
      let rest = keep_last ps in if contains (symbols ps) p.symbol then rest else p ∷ rest

  filter_at-keep_last :
      (p : Price N → ℕ → Bool) (pos : ℕ) (ps : List (Price N))
      → ((v : Price N) (i : ℕ) → p v (pos + i) ≡ (last_index_of (symbols ps) v.symbol == some i))
      → filter_at p pos ps ≡ keep_last ps
  unfolding filter_at keep_last
  filter_at-keep_last p pos [] h = refl
  filter_at-keep_last p pos (x ∷ ps) h =
      let here : p x pos ≡ not (contains (symbols ps) x.symbol) =
        ap (p x) (omega arith) ∙ h x 0 ∙ last_index_of-zero x.symbol (symbols ps) in
      let later = filter_at-keep_last p (suc pos) ps (λ v i.
        ap (p v) (omega arith)
        ∙ h v (suc i)
        ∙ last_index_of-suc x.symbol v.symbol (symbols ps) i) in
      grind (arith, here, later)

  is_some-find_last :
      (ps : List (Price N)) (symbol : Text)
      → is_some (find_last ps symbol) ≡ contains (symbols ps) symbol
  unfolding find_last
  is_some-find_last [] symbol = refl
  is_some-find_last (p ∷ ps) symbol = ground (arith, is_some-find_last ps symbol)

  find-keep_last :
      (ps : List (Price N)) (symbol : Text)
      → find (λ p. p.symbol == symbol) (keep_last ps) ≡ find_last ps symbol
  unfolding find_last keep_last
  find-keep_last [] symbol = refl
  find-keep_last (p ∷ ps) symbol =
      ground (arith, find-keep_last ps symbol, is_some-find_last ps symbol)

  contains-keep_last :
      (ps : List (Price N)) (symbol : Text)
      → contains (symbols (keep_last ps)) symbol ≡ contains (symbols ps) symbol
  unfolding keep_last
  contains-keep_last [] symbol = refl
  contains-keep_last (p ∷ ps) symbol = ground (arith, contains-keep_last ps symbol)

  keep_last-Distinct : (ps : List (Price N)) → Distinct (symbols (keep_last ps))
  unfolding keep_last
  keep_last-Distinct [] = tt
  keep_last-Distinct (p ∷ ps) =
      ground (arith, contains-keep_last ps p.symbol, keep_last-Distinct ps)

  find_last-append :
      (old new : List (Price N)) (symbol : Text)
      → find_last (old ++ new) symbol
        ≡ elim (find_last new symbol) [ some p ↦ some p | none ↦ find_last old symbol ]
  unfolding find_last
  find_last-append [] new symbol = ground arith
  find_last-append (p ∷ old) new symbol = ground (arith, find_last-append old new symbol)

  update_price-keep_last :
      (old new : List (Price N)) → update_price old (some new) ≡ keep_last (old ++ new)
  unfolding update_price
  update_price-keep_last old new =
      filter_at-keep_last
        (λ value pos. last_index_of (symbols (old ++ new)) value.symbol == some pos) 0 (old ++ new)
        (λ v i. ap (λ n. last_index_of (symbols (old ++ new)) v.symbol == some n) (omega arith))

  -- After an update with a list of prices, the price that a symbol has is the last one for it in
  -- that list, and the last of the prices before for a symbol that is not in the list.
  pub prices_reducer-latest :
      (s : State N) (new : List (Price N)) (symbol : Text)
      → get_by_symbol (prices_reducer s (Action.prices_update (some new))) symbol
        ≡ elim (find_last new symbol) [ some p ↦ some p | none ↦ find_last s.prices symbol ]
  unfolding prices_reducer get_by_symbol
  prices_reducer-latest s new symbol =
      rw (update_price-keep_last s.prices new, find-keep_last (s.prices ++ new) symbol)
        (find_last-append s.prices new symbol)

  -- After any update no symbol has two prices.
  pub prices_reducer-Distinct :
      (s : State N) (a : Action N) → Distinct (symbols (prices_reducer s a).prices)
  unfolding prices_reducer update_price
  prices_reducer-Distinct s (Action.prices_update none) = tt
  prices_reducer-Distinct s (Action.prices_update (some new)) =
      subst (λ ps. Distinct (symbols ps)) (sym (update_price-keep_last s.prices new))
        (keep_last-Distinct (s.prices ++ new))
