-- ===== src/Common/Collection/Select.antt =====
-- What filters over listed entities return once a list has been taken in whole.
use mathlib.Core.Path.{◌≡◌, refl, ap, ◌∙◌}
use mathlib.Core.Logic.{inl, inr}
use mathlib.Core.Bool.{Bool, true, false}
use mathlib.Core.Option.{some}
use mathlib.Core.List.{List, [], ◌∷◌, ◌++◌, map, map-append}
use native.Mathlib.Omega.{arith}
use identity_wallet.Common.Tests.{Bool-cases, Option-cases}
use identity_wallet.Common.Lists.{filter, All}
use identity_wallet.Common.Equality.{Eq, contains, eq_refl}
use identity_wallet.Common.Outcome.{ok, >>=-eq-ok, throw-ne-ok}
use identity_wallet.Common.Dict.{Dict, lookup, insert, lookup-insert}
use identity_wallet.Common.Collection.{Collection, keep, listed, index_from, of_list, IsConsistent}
use identity_wallet.Common.Collection.Laws.{
  keep-some, Distinct, listed-of_list, lookup-index_from_other, contains-append, listed-some,
}

module _ {V : Type 0} where
  -- Nothing passes a test and its negation; a test is idle after one that it follows from.
  pub filter_none :
      (p q : V → Bool)
      → ((x : V) → p x ≡ true → q x ≡ false)
      → (xs : List V) → filter q (filter p xs) ≡ []
  filter_none p q h [] = refl
  filter_none p q h (x ∷ xs) = ground (arith, h x, filter_none p q h xs)

  pub filter_idle :
      (p q : V → Bool)
      → ((x : V) → q x ≡ true → p x ≡ true)
      → (xs : List V) → filter q (filter p xs) ≡ filter q xs
  filter_idle p q h [] = refl
  filter_idle p q h (x ∷ xs) = ground (arith, h x, filter_idle p q h xs)

  pub filter-All : (p : V → Bool) (xs : List V) → All (λ x. p x ≡ true) xs → filter p xs ≡ xs
  filter-All p [] h = refl
  filter-All p (x ∷ xs) h = ground (arith, filter-All p xs h.1)

  pub filter_nothing : (p : V → Bool) (xs : List V) → All (λ x. p x ≡ false) xs → filter p xs ≡ []
  filter_nothing p [] h = refl
  filter_nothing p (x ∷ xs) h = ground (arith, filter_nothing p xs h.1)

module _ {K V : Type 0} ⦃e : Eq K⦄ (key : V → K) where
  contains-map-filter :
      (p : V → Bool) (xs : List V) (i : K)
      → contains (map key xs) i ≡ false
      → contains (map key (filter p xs)) i ≡ false
  contains-map-filter p [] i h = refl
  contains-map-filter p (x ∷ xs) i h = ground (arith, contains-map-filter p xs i)

  pub Distinct-filter :
      (p : V → Bool) (xs : List V) → Distinct (map key xs) → Distinct (map key (filter p xs))
  Distinct-filter p [] h = tt
  Distinct-filter p (x ∷ xs) h =
      ground (arith, Distinct-filter p xs h.1, contains-map-filter p xs (key x) h.0)

  pub keep-of_list :
      (p : V → Bool) (xs : List V)
      → Distinct (map key xs)
      → keep p (listed (of_list key xs)) ≡ ok (filter p xs)
  keep-of_list p xs h = ap (keep p) (listed-of_list key xs h) ∙ keep-some p xs

  -- The entity under an id is one of the list that was taken in last, if that has the id.
  lookup-index_from_last :
      (P : V → Type 0) (d : Dict K V) (xs : List V) (i : K)
      → All P xs
      → contains (map key xs) i ≡ true
      → (x : V) × (lookup i (index_from key d xs) ≡ some x) × P x
  unfolding index_from
  lookup-index_from_last P d [] i h k = cc
  lookup-index_from_last P d (x ∷ xs) i h k = elim (Bool-cases (contains (map key xs) i)) [
    | inl later ↦ lookup-index_from_last P (insert (key x) x d) xs i h.1 later
    | inr last ↦ (
      x,
      ground (
        arith,
        lookup-index_from_other key (insert (key x) x d) xs i,
        lookup-insert i (key x) x d,
      ),
      h.0,
    )
  ]

  index_from-append :
      (d : Dict K V) (xs ys : List V)
      → index_from key d (xs ++ ys) ≡ index_from key (index_from key d xs) ys
  unfolding index_from
  index_from-append d [] ys = refl
  index_from-append d (x ∷ xs) ys = index_from-append (insert (key x) x d) xs ys

  pub lookup-of_list_last :
      (P : V → Type 0) (xs ys : List V) (i : K)
      → All P ys
      → contains (map key ys) i ≡ true
      → (x : V) × (lookup i (of_list key (xs ++ ys)).by_id ≡ some x) × P x
  unfolding of_list
  lookup-of_list_last P xs ys i h k =
      rw index_from-append (lookup-index_from_last P (index_from key [] xs) ys i h k)

  -- A listed entity that passes the test is among those kept.
  pub contains-keep :
      (p : V → Bool) (d : Dict K V) (is : List K) (i : K) (x : V) (ys : List V)
      → lookup i d ≡ some x
      → p x ≡ true
      → key x ≡ i
      → contains is i ≡ true
      → keep p (map (λ j. lookup j d) is) ≡ ok ys
      → contains (map key ys) i ≡ true
  unfolding keep
  contains-keep p d [] i x ys found passes same h kept = cc
  contains-keep p d (j ∷ is) i x ys found passes same h kept = elim (Option-cases (lookup j d)) [
    | inl missing ↦ absurd (throw-ne-ok (rw missing at kept))
    | inr (y, at_j) ↦
        let (rest, e, f) = >>=-eq-ok (keep p (map (λ j. lookup j d) is)) _ (rw at_j at kept) in
        ground (arith, contains-keep p d is i x rest found passes same, at_j, found, e, f)
  ]

  pub Distinct-append :
      (is js : List K)
      → Distinct is
      → Distinct js
      → ((i : K) → contains is i ≡ true → contains js i ≡ false)
      → Distinct (is ++ js)
  Distinct-append [] js h k apart = k
  Distinct-append (i ∷ is) js h k apart = (
    ground (arith, contains-append is js i, apart i, eq_refl i),
    Distinct-append is js h.1 k (λ j hj. apart j (ground arith)),
  )

  lookup-filter :
      (p : V → Bool) (d : Dict K V) (xs : List V) (i : K)
      → All (λ x. lookup (key x) d ≡ some x) xs
      → contains (map key (filter p xs)) i ≡ true
      → (x : V) × (lookup i d ≡ some x) × (p x ≡ true)
  lookup-filter p d [] i h k = cc
  lookup-filter p d (x ∷ xs) i h k = elim (Bool-cases (contains (map key (filter p xs)) i)) [
    | inl later ↦ lookup-filter p d xs i h.1 later
    | inr here ↦ (x, ground (arith, h.0), ground arith)
  ]

  -- A consistent collection of which a part was replaced lists the entities that were kept and the
  -- new ones, if a new id that was in use was the id of a replaced entity.
  pub listed-replace :
      (p : V → Bool) (c : Collection K V) (xs : List V)
      → IsConsistent key c
      → Distinct c.ids
      → Distinct (map key xs)
      → ((i : K) (x : V) → contains (map key xs) i ≡ true → lookup i c.by_id ≡ some x → p x ≡ false)
      → (old : List V) × (listed c ≡ map some old)
        × (listed (of_list key (filter p old ++ xs)) ≡ map some (filter p old ++ xs))
  listed-replace p c xs h u v fresh =
      let (old, e, keys, found) = listed-some key c h in
      let apart : (i : K)
          → contains (map key (filter p old)) i ≡ true
          → contains (map key xs) i ≡ false =
        λ i k.
          (let (x, at_i, passes) = lookup-filter p c.by_id old i found k in
            ground (arith, fresh i x)) in
      (
        old,
        e,
        listed-of_list key (filter p old ++ xs) (
            rw map-append (
              Distinct-append (map key (filter p old)) (map key xs)
                (Distinct-filter p old (rw keys u)) v apart)),
      )
