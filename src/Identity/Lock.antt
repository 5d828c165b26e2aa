-- ===== src/Identity/Lock.antt =====
-- What locking an identity clears from the store, and what it leaves: `lockIdentityOperation` and
-- `loadDocumentsForAttributeOperation` of src/common/identity/operations.js.
use identity_wallet.Common.{
  ℕ, ◌≡◌, refl, ap, true, none, some, List, [], ◌++◌, map, append-nil, map-append, arith, Result,
  ok, ◌>>=◌, ◌==◌, contains, filter, All, nat_eq, option_eq,
}
use identity_wallet.Common.Collection.{keep, listed, of_list, IsConsistent}
use identity_wallet.Common.Collection.Laws.{
  keep-some, Distinct, contains-append, of_list-IsConsistent,
}
use identity_wallet.Common.Collection.Select.{
  filter_none, listed-replace, lookup-of_list_last, contains-keep,
}
use identity_wallet.Identity.State.{State, Document}
use identity_wallet.Identity.Reducers.{
  document_id, id_attribute_id, attribute_not_of_wallet, document_not_of_wallet,
  document_not_of_attribute, reducer, delete_documents_reducer, set_attribute_documents_reducer,
  delete_id_attributes_reducer,
}
use identity_wallet.Identity.Reducers.Consistency.{IsValid, keep-listed}
use identity_wallet.Identity.Selectors.{select_id_attributes}
use identity_wallet.Identity.Operations.{
  Services, World, lock_identity_operation, load_documents_for_attribute_operation,
}
use identity_wallet.Identity.Wallets.{OthersKeep, delete_id_attributes_reducer-select}

-- The documents that carry the wallet's id.
abbrev pub documents_of_wallet : State → ℕ → Result (List Document)
documents_of_wallet s w = keep (λ d. d.wallet_id == some w) (listed s.documents)

delete_documents_reducer-clears :
    (w : ℕ) (s : State)
    → IsConsistent document_id s.documents
    → Distinct s.documents.ids
    → (t : State) × (delete_documents_reducer w s ≡ ok t)
      × (documents_of_wallet t w ≡ ok [])
      × (t.attributes ≡ s.attributes)
unfolding delete_documents_reducer
delete_documents_reducer-clears w s h u =
    let (old, e, f) =
      listed-replace document_id (document_not_of_wallet w) s.documents [] h u tt
        (λ i d k at_i. cc) in
    (
      record s { documents = of_list document_id (filter (document_not_of_wallet w) old) },
      rw (e, keep-some),
      rw (rw append-nil at f, keep-some)
          (ap ok (
            filter_none (document_not_of_wallet w) (λ d. d.wallet_id == some w)
              (λ d k. ground arith) old)),
      refl,
    )

delete_documents_reducer-keeps :
    (w : ℕ) (s : State) (old docs : List Document) (i : ℕ)
    → s.documents ≡ of_list document_id (old ++ docs)
    → All (λ d. d.wallet_id ≡ none) docs
    → contains (map document_id docs) i ≡ true
    → (t : State) × (delete_documents_reducer w s ≡ ok t) × (contains t.documents.ids i ≡ true)
unfolding delete_documents_reducer of_list listed
delete_documents_reducer-keeps w s old docs i same untagged here =
    let c = of_list document_id (old ++ docs) in
    let h = of_list-IsConsistent document_id (old ++ docs) in
    let (kept, e) = keep-listed document_id (document_not_of_wallet w) c h in
    let (d, found, bare) =
      lookup-of_list_last document_id (λ d. d.wallet_id ≡ none) old docs i untagged here in
    (
      record s { documents = of_list document_id kept },
      rw (same, e),
      contains-keep document_id (document_not_of_wallet w) c.by_id c.ids i d kept found
          (ground arith) (h.keyed i d found)
          (rw map-append
            (ground (arith, contains-append (map document_id old) (map document_id docs) i)))
          e,
    )

module _ {D : Type 0} (services : Services D) (wallet_id : ℕ) where
  -- In a valid state in which no attribute and no document is listed twice, locking the identity of
  -- a wallet returns. The wallet then has no attribute in the store and no
  -- document that carries its id; the attributes of the other wallets and the database are as they
  -- were.
  pub lock_identity_operation-clears :
      (world : World D)
      → IsValid world.state
      → Distinct world.state.attributes.ids
      → Distinct world.state.documents.ids
      → (t : World D) × (lock_identity_operation services wallet_id world ≡ ok t)
        × (select_id_attributes t.state wallet_id ≡ ok [])
        × OthersKeep wallet_id world.state t.state
        × (documents_of_wallet t.state wallet_id ≡ ok [])
        × (t.database ≡ world.database)
  unfolding lock_identity_operation reducer select_id_attributes
  lock_identity_operation-clears world v u k =
      let (s, e, mine, others, docs) = delete_id_attributes_reducer-select wallet_id v u in
      let (t, f, gone, attrs) =
        delete_documents_reducer-clears wallet_id s (rw docs v.documents) (rw docs k) in
      (
        record world { state = t },
        rw (e, f),
        rw attrs mine,
        λ w' ne. rw attrs (others w' ne),
        gone,
        refl,
      )

  -- From a valid state, and where the service loads documents without a wallet id, as their rows
  -- have none, a document that is loaded for an attribute is still listed after a wallet is locked,
  -- whatever wallet that is.
  pub lock_identity_operation-keeps :
      (attribute_id : ℕ) (world : World D) (i : ℕ)
      → IsValid world.state
      → ((id : ℕ) (d : D)
          → All (λ doc. doc.wallet_id ≡ none) (services.load_documents_for_attribute id d))
      → contains
          (map document_id (services.load_documents_for_attribute attribute_id world.database))
          i
        ≡ true
      → (t : World D) × ((do
        loaded ← load_documents_for_attribute_operation services attribute_id world
        lock_identity_operation services wallet_id loaded)
          ≡ ok t)
        × (contains t.state.documents.ids i ≡ true)
  unfolding lock_identity_operation load_documents_for_attribute_operation reducer
      set_attribute_documents_reducer delete_id_attributes_reducer
  lock_identity_operation-keeps attribute_id world i v untagged here =
      let docs = services.load_documents_for_attribute attribute_id world.database in
      let (old, e) =
        keep-listed document_id (document_not_of_attribute attribute_id) world.state.documents
          v.documents in
      let (attrs, f) =
        keep-listed id_attribute_id (attribute_not_of_wallet wallet_id) world.state.attributes
          v.attributes in
      let (t, g, h) =
        delete_documents_reducer-keeps wallet_id
          (record world.state {
            documents = of_list document_id (old ++ docs);
            attributes = of_list id_attribute_id attrs;
          })
          old docs i refl (untagged attribute_id world.database) here in
      (record world { state = t }, rw (e, f, g), h)
