-- ===== src/Identity/Wallets.antt =====
-- How the wallets share the identity store: what setting, unlocking and locking one wallet does to
-- the entities of that wallet and of the others (src/common/identity/{reducers,operations}.js).
use identity_wallet.Common.{
  ℕ, ◌≡◌, refl, ap, ◌∙◌, ◌≢◌, Bool, true, some, List, [], ◌∷◌, ◌++◌, map, append-nil, arith, ok,
  ◌==◌, contains, filter, filter-append, All, nat_eq, option_eq,
}
use identity_wallet.Common.Dict.{lookup}
use identity_wallet.Common.Collection.{of_list}
use identity_wallet.Common.Collection.Laws.{keep-some, Distinct}
use identity_wallet.Common.Collection.Select.{filter_none, filter_idle, listed-replace}
use identity_wallet.Identity.State.{State, IdAttribute}
use identity_wallet.Identity.Reducers.{
  id_attribute_id, attribute_not_of_wallet, set_id_attributes_reducer, delete_id_attributes_reducer,
}
use identity_wallet.Identity.Reducers.Consistency.{IsValid}
use identity_wallet.Identity.Selectors.{select_id_attributes}

abbrev pub OfWallet : ℕ → List IdAttribute → Type 0
OfWallet w = All (λ a. a.wallet_id ≡ some w)

OfWallet-select :
    (w : ℕ) (xs : List IdAttribute) → OfWallet w xs → filter (λ a. a.wallet_id == some w) xs ≡ xs
OfWallet-select w [] h = refl
OfWallet-select w (a ∷ xs) h = ground (arith, OfWallet-select w xs h.1)

OfWallet-select_other :
    (w w' : ℕ) (xs : List IdAttribute)
    → OfWallet w xs
    → w' ≢ w
    → filter (λ a. a.wallet_id == some w') xs ≡ []
OfWallet-select_other w w' [] h ne = refl
OfWallet-select_other w w' (a ∷ xs) h ne = ground (arith, OfWallet-select_other w w' xs h.1)

abbrev of_wallet : ℕ → IdAttribute → Bool
of_wallet w a = a.wallet_id == some w

select-replaced :
    (w : ℕ) (old xs : List IdAttribute)
    → OfWallet w xs
    → filter (of_wallet w) (filter (attribute_not_of_wallet w) old ++ xs) ≡ xs
select-replaced w old xs own =
    filter-append (of_wallet w) (filter (attribute_not_of_wallet w) old) xs
    ∙ cc (
      filter_none (attribute_not_of_wallet w) (of_wallet w) (λ a h. ground arith) old,
      OfWallet-select w xs own,
    )

select_other-replaced :
    (w w' : ℕ) (old xs : List IdAttribute)
    → OfWallet w xs
    → w' ≢ w
    → filter (of_wallet w') (filter (attribute_not_of_wallet w) old ++ xs)
      ≡ filter (of_wallet w') old
select_other-replaced w w' old xs own ne =
    filter-append (of_wallet w') (filter (attribute_not_of_wallet w) old) xs
    ∙ rw
        (
          filter_idle (attribute_not_of_wallet w) (of_wallet w') (λ a h. ground arith) old,
          OfWallet-select_other w w' xs own ne,
          append-nil,
        )
        refl

-- The attributes of every wallet but `w` are those that they were.
abbrev pub OthersKeep : ℕ → State → State → Type 0
OthersKeep w s t = (w' : ℕ) → w' ≢ w → select_id_attributes t w' ≡ select_id_attributes s w'

module _ (w : ℕ) {s : State} (v : IsValid s) (u : Distinct s.attributes.ids) where
  -- In a valid state in which no attribute is listed twice, setting the attributes of a wallet to
  -- attributes of it with different ids, which no other wallet uses, returns; the wallet then has
  -- exactly these, in order, and the others keep theirs.
  pub set_id_attributes_reducer-select :
      (xs : List IdAttribute)
      → OfWallet w xs
      → Distinct (map id_attribute_id xs)
      → ((i : ℕ) (a : IdAttribute)
          → contains (map id_attribute_id xs) i ≡ true
          → lookup i s.attributes.by_id ≡ some a
          → a.wallet_id ≡ some w)
      → (t : State) × (set_id_attributes_reducer w (some xs) s ≡ ok t)
        × (select_id_attributes t w ≡ ok xs)
        × OthersKeep w s t
  unfolding set_id_attributes_reducer select_id_attributes
  set_id_attributes_reducer-select xs own d fresh =
      let (old, e, f) =
        listed-replace id_attribute_id (attribute_not_of_wallet w) s.attributes xs v.attributes u d
          (λ i a k at_i. ground (arith, fresh i a)) in
      (
        record s {
          attributes = of_list id_attribute_id (filter (attribute_not_of_wallet w) old ++ xs);
        },
        rw (e, keep-some),
        rw (f, keep-some) (ap ok (select-replaced w old xs own)),
        λ w' ne. rw (f, e, keep-some, keep-some) (ap ok (select_other-replaced w w' old xs own ne)),
      )

  -- In a valid state in which no attribute is listed twice, deleting the attributes of a wallet
  -- returns; the wallet then has none, the others keep theirs, and the documents are as they were.
  pub delete_id_attributes_reducer-select :
      (t : State) × (delete_id_attributes_reducer w s ≡ ok t)
      × (select_id_attributes t w ≡ ok [])
      × OthersKeep w s t
      × (t.documents ≡ s.documents)
  unfolding delete_id_attributes_reducer select_id_attributes
  delete_id_attributes_reducer-select =
      let (old, e, f) =
        listed-replace id_attribute_id (attribute_not_of_wallet w) s.attributes [] v.attributes u tt
          (λ i a k at_i. cc) in
      let f' = rw append-nil at f in
      (
        record s { attributes = of_list id_attribute_id (filter (attribute_not_of_wallet w) old) },
        rw (e, keep-some),
        rw (f', keep-some)
            (ap ok
              (filter_none (attribute_not_of_wallet w) (of_wallet w) (λ a h. ground arith) old)),
        λ w' ne.
            rw (f', e, keep-some, keep-some)
              (ap ok
                (filter_idle (attribute_not_of_wallet w) (of_wallet w') (λ a h. ground arith) old)),
        refl,
      )
