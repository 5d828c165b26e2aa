-- ===== src/Identity/Selectors/Grouping.antt =====
-- The documents of each attribute, as `selectDocumentsByAttributeIds` groups them.
use identity_wallet.Common.{
  ℕ, ◌≡◌, refl, ap, sym, ◌∙◌, ◌&&◌, Option, some, List, [], ◌∷◌, ◌++◌, map, append-nil,
  append_assoc, arith, if◌then◌else◌, or_else, ok, ◌==◌, filter, nat_eq, option_eq,
}
use identity_wallet.Common.Dict.{Dict, lookup, insert, lookup-insert, lookup-nil}
use identity_wallet.Common.Collection.Laws.{listed-some}
use identity_wallet.Identity.State.{State, Document}
use identity_wallet.Identity.Reducers.{document_id}
use identity_wallet.Identity.Reducers.Consistency.{IsValid}
use identity_wallet.Identity.Selectors.{
  wanted, group_documents, select_documents, select_documents_by_attribute_ids,
}

abbrev Groups : Type 0
Groups = Dict (Option ℕ) (List Document)

abbrev pub group : Option ℕ → Groups → List Document
group k g = or_else (lookup k g) []

-- The documents of attribute `k`, if it is asked for.
abbrev pub documents_of : Option (List ℕ) → Option ℕ → List Document → List Document
documents_of ids k = filter (λ d. d.attribute_id == k && wanted ids k)

group-insert :
    (k j : Option ℕ) (xs : List Document) (g : Groups)
    → group k (insert j xs g) ≡ (if k == j then xs else group k g)
group-insert k j xs g = ground (arith, lookup-insert k j xs g)

group-step :
    (ids : Option (List ℕ)) (k : Option ℕ) (g : Groups) (d : Document) (ds : List Document)
    → group k (
          if wanted ids d.attribute_id
          then insert d.attribute_id (group d.attribute_id g ++ d ∷ []) g
          else g)
        ++ documents_of ids k ds
      ≡ group k g ++ documents_of ids k (d ∷ ds)
group-step ids k g d ds = ground (
  arith,
  group-insert k d.attribute_id (group d.attribute_id g ++ d ∷ []) g,
  append_assoc (group d.attribute_id g) (d ∷ []) (documents_of ids k ds),
)

group_documents-lookup :
    (ids : Option (List ℕ)) (g : Groups) (ds : List Document)
    → (r : Groups) × (group_documents ids g (map some ds) ≡ ok r)
      × ((k : Option ℕ) → group k r ≡ group k g ++ documents_of ids k ds)
unfolding group_documents
group_documents-lookup ids g [] = (g, refl, λ k. sym (append-nil (group k g)))
group_documents-lookup ids g (d ∷ ds) =
    let j = d.attribute_id in
    let (r, e, h) =
      group_documents-lookup ids (if wanted ids j then insert j (group j g ++ d ∷ []) g else g)
        ds in
    (r, e, λ k. h k ∙ group-step ids k g d ds)

-- In a valid state the selector returns, and under each attribute id that is asked for stand the
-- documents of that attribute, in the order of the store; under any other id stands none.
pub select_documents_by_attribute_ids-group :
    (s : State) (ids : Option (List ℕ))
    → IsValid s
    → (ds : List Document) × (r : Groups) × (select_documents s ≡ map some ds)
      × (select_documents_by_attribute_ids s ids ≡ ok r)
      × ((k : Option ℕ) → group k r ≡ documents_of ids k ds)
unfolding select_documents_by_attribute_ids select_documents
select_documents_by_attribute_ids-group s ids v =
    let (ds, e, _, _) = listed-some document_id s.documents v.documents in
    let (r, f, h) = group_documents-lookup ids [] ds in
    (ds, r, e, rw e f, λ k. h k ∙ ap (λ o. or_else o [] ++ documents_of ids k ds) (lookup-nil k))
