-- ===== src/Identity/Reloading.antt =====
-- What loading the documents of a wallet again leaves in the store: `loadDocumentsOperation` of
-- src/common/identity/operations.js and `setDocumentsReducer` of src/common/identity/reducers.js.
use identity_wallet.Common.{
  ℕ, ◌≡◌, refl, ap, sym, ◌∙◌, true, some, List, [], ◌∷◌, ◌++◌, map, map-append, arith, ok, contains,
  filter, All, nat_eq,
}
use identity_wallet.Common.Dict.{Dict, lookup}
use identity_wallet.Common.Collection.{keep, listed, of_list}
use identity_wallet.Common.Collection.Laws.{keep-some, listed-some, of_list-IsConsistent}
use identity_wallet.Common.Collection.Select.{lookup-of_list_last}
use identity_wallet.Identity.State.{State, Document}
use identity_wallet.Identity.Reducers.{document_id, has_wallet, reducer, set_documents_reducer}
use identity_wallet.Identity.Reducers.Consistency.{IsValid}
use identity_wallet.Identity.Operations.{Services, World, load_documents_operation}

-- Where every listed document is stored under its id and has a wallet id, all are kept.
keep-has_wallet :
    (d : Dict ℕ Document) (is : List ℕ)
    → ((i : ℕ)
        → contains is i ≡ true
        → (x : Document) × (lookup i d ≡ some x) × (has_wallet x ≡ true) × (x.id ≡ i))
    → (ys : List Document) × (keep has_wallet (map (λ j. lookup j d) is) ≡ ok ys)
      × (map document_id ys ≡ is)
unfolding keep
keep-has_wallet d [] h = ([], refl, refl)
keep-has_wallet d (i ∷ is) h =
    let (x, found, owned, same) = h i (ground arith) in
    let (ys, e, f) = keep-has_wallet d is (λ j k. h j (ground arith)) in
    (x ∷ ys, rw (found, e, owned) refl, cc)

All-append : {A : Type 0} (P : A → Type 0) (xs ys : List A) → All P xs → All P ys → All P (xs ++ ys)
All-append P [] ys h k = k
All-append P (x ∷ xs) ys h k = (h.0, All-append P xs ys h.1 k)

HasWallet : Document → Type 0
HasWallet d = has_wallet d ≡ true

filter-HasWallet : (xs : List Document) → All HasWallet (filter has_wallet xs)
unfolding HasWallet
filter-HasWallet [] = tt
filter-HasWallet (x ∷ xs) = ground (arith, filter-HasWallet xs)

-- `{ ...doc, walletId }`
abbrev tagged : ℕ → Document → Document
tagged w d = record d { wallet_id = some w }

tagged-HasWallet : (w : ℕ) (xs : List Document) → All HasWallet (map (tagged w) xs)
unfolding HasWallet
tagged-HasWallet w [] = tt
tagged-HasWallet w (x ∷ xs) = (refl, tagged-HasWallet w xs)

tagged-ids : (w : ℕ) (xs : List Document) → map document_id (map (tagged w) xs) ≡ map document_id xs
tagged-ids w [] = refl
tagged-ids w (x ∷ xs) = ap (λ is. x.id ∷ is) (tagged-ids w xs)

-- In a state whose documents were just built from documents with a wallet id, setting documents
-- appends them.
set_documents_reducer-appends :
    (s : State) (w : ℕ) (xs docs : List Document)
    → s.documents ≡ of_list document_id xs
    → All HasWallet xs
    → (t : State) × (set_documents_reducer w (some docs) s ≡ ok t)
      × (t.documents.ids ≡ s.documents.ids ++ map document_id docs)
unfolding set_documents_reducer of_list listed HasWallet
set_documents_reducer-appends s w xs docs same owned =
    let c = of_list document_id xs in
    let h = of_list-IsConsistent document_id xs in
    let (ys, e, f) = keep-has_wallet c.by_id c.ids λ i k.
      (let (x, found, p) = lookup-of_list_last document_id HasWallet [] xs i owned k in
        (x, found, p, h.keyed i x found)) in
    (
      record s { documents = of_list document_id (ys ++ docs) },
      rw (same, e) refl,
      map-append document_id ys docs
          ∙ ap (λ is. is ++ map document_id docs) (f ∙ ap (λ k. k.ids) (sym same)),
    )

module _ {D : Type 0} (services : Services D) where
  abbrev loaded_ids : ℕ → D → List ℕ
  loaded_ids w d = map document_id (services.load_documents w d)

  -- From a valid state, loading the documents of a wallet returns. Of the documents that were
  -- listed, those that have a wallet id stay, of whichever wallet, in their order, those without one
  -- are dropped, and the documents that the service loads are appended. Loading the documents of any
  -- wallet after that, of the same one too, returns and appends those documents to all that are
  -- listed, also where they are listed already. The database stays as it is.
  pub load_documents_operation-appends :
      (w w' : ℕ) (world : World D)
      → IsValid world.state
      → (old : List Document) × (t : World D) × (u : World D) × (listed world.state.documents
          ≡ map some old)
        × (load_documents_operation services w world ≡ ok t)
        × (t.state.documents.ids
            ≡ map document_id (filter has_wallet old) ++ loaded_ids w world.database)
        × (load_documents_operation services w' t ≡ ok u)
        × (u.state.documents.ids ≡ t.state.documents.ids ++ loaded_ids w' world.database)
        × (u.database ≡ world.database)
  unfolding load_documents_operation reducer set_documents_reducer of_list
  load_documents_operation-appends w w' world v =
      let docs = map (tagged w) (services.load_documents w world.database) in
      let docs' = map (tagged w') (services.load_documents w' world.database) in
      let (old, e, same, found) = listed-some document_id world.state.documents v.documents in
      let xs = filter has_wallet old ++ docs in
      let t = record world.state { documents = of_list document_id xs } in
      let owned =
        All-append HasWallet (filter has_wallet old) docs (filter-HasWallet old)
          (tagged-HasWallet w (services.load_documents w world.database)) in
      let (u, f, g) = set_documents_reducer-appends t w' xs docs' refl owned in
      (
        old,
        record world { state = t },
        record world { state = u },
        e,
        rw (e, keep-some) refl,
        map-append document_id (filter has_wallet old) docs
            ∙ ap (λ is. map document_id (filter has_wallet old) ++ is) (tagged-ids w _),
        rw f refl,
        g ∙ ap (λ is. map document_id xs ++ is) (tagged-ids w' _),
        refl,
      )
