-- ===== src/Common/Collection/Laws.antt =====
-- What the operations on ids and object keep, and what a list of entities reads back as.
use mathlib.Core.Path.{◌≡◌, refl}
use mathlib.Core.Bool.{Bool, true, false, ◌||◌}
use mathlib.Core.Option.{some}
use mathlib.Core.List.{List, [], ◌∷◌, ◌++◌, map}
use mathlib.Core.Logic.{inl, inr}
use native.Mathlib.Omega.{arith}
use identity_wallet.Common.Tests.{if◌then◌else◌, is_some, Option-cases}
use identity_wallet.Common.Lists.{filter, All}
use identity_wallet.Common.Equality.{Eq, ◌==◌, contains, eq_refl}
use identity_wallet.Common.Outcome.{ok}
use identity_wallet.Common.Dict.{Dict, lookup, insert, lookup-nil, lookup-insert, lookup-erase}
use identity_wallet.Common.Collection.{
  Collection, keep, listed, remove, index_from, of_list, add, IsConsistent,
}

-- Where nothing is missing, the filter is the plain one.
pub keep-some : {V : Type 0} (p : V → Bool) (xs : List V) → keep p (map some xs) ≡ ok (filter p xs)
unfolding keep
keep-some p [] = refl
keep-some p (x ∷ xs) = rw (keep-some p xs)

module _ {K : Type 0} ⦃e : Eq K⦄ where
  pub contains-append :
      (xs ys : List K) (i : K) → contains (xs ++ ys) i ≡ contains xs i || contains ys i
  contains-append [] ys i = refl
  contains-append (x ∷ xs) ys i = ground (arith, contains-append xs ys i)

  pub contains-filter_ne :
      (xs : List K) (i j : K)
      → contains (filter (λ k. if k == i then false else true) xs) j
        ≡ (if j == i then false else contains xs j)
  contains-filter_ne [] i j = ground arith
  contains-filter_ne (x ∷ xs) i j = ground (arith, contains-filter_ne xs i j)

  -- No id occurs twice.
  abbrev pub Distinct : List K → Type 0
  Distinct [] = Unit
  Distinct (x ∷ xs) = (contains xs x ≡ false) × Distinct xs

module _ {K V : Type 0} ⦃e : Eq K⦄ (key : V → K) where
  lookup-index_from :
      (d : Dict K V) (xs : List V) (i : K)
      → is_some (lookup i (index_from key d xs)) ≡ contains (map key xs) i || is_some (lookup i d)
  unfolding index_from
  lookup-index_from d [] i = refl
  lookup-index_from d (x ∷ xs) i =
      ground (arith, lookup-index_from (insert (key x) x d) xs i, lookup-insert i (key x) x d)

  index_from-keyed :
      (d : Dict K V) (xs : List V)
      → ((i : K) (x : V) → lookup i d ≡ some x → key x ≡ i)
      → (i : K) (x : V) → lookup i (index_from key d xs) ≡ some x
      → key x ≡ i
  unfolding index_from
  index_from-keyed d [] h i x q = h i x q
  index_from-keyed d (y ∷ ys) h i x q =
      index_from-keyed (insert (key y) y d) ys (insert-keyed d y h) i x q
    where
      insert-keyed :
          (d : Dict K V) (y : V)
          → ((i : K) (x : V) → lookup i d ≡ some x → key x ≡ i)
          → (i : K) (x : V) → lookup i (insert (key y) y d) ≡ some x
          → key x ≡ i
      insert-keyed d y h i x q = ground (arith, lookup-insert i (key y) y d, h i x)

  -- A list of entities, taken in whole, is consistent.
  pub of_list-IsConsistent : (xs : List V) → IsConsistent key (of_list key xs)
  unfolding of_list
  of_list-IsConsistent xs = record {
    domain = λ i. ground (arith, lookup-index_from [] xs i, lookup-nil {V = V} i);
    keyed = index_from-keyed [] xs (λ i x q. cc (lookup-nil {V = V} i));
  }

  pub add-IsConsistent :
      (x : V) (c : Collection K V) → IsConsistent key c → IsConsistent key (add key x c)
  unfolding add
  add-IsConsistent x c h = record {
    domain = λ i. ground (
      arith,
      h.domain i,
      lookup-insert i (key x) x c.by_id,
      contains-append c.ids (key x ∷ []) i,
    );
    keyed = λ i y q. ground (arith, lookup-insert i (key x) x c.by_id, h.keyed i y);
  }

  pub remove-IsConsistent :
      (i : K) (c : Collection K V) → IsConsistent key c → IsConsistent key (remove i c)
  unfolding remove
  remove-IsConsistent i c h = record {
    domain =
        λ j. ground (arith, h.domain j, lookup-erase j i c.by_id, contains-filter_ne c.ids i j);
    keyed = λ j y q. ground (arith, lookup-erase j i c.by_id, h.keyed j y);
  }

  listed_from-some :
      (c : Collection K V) (is : List K)
      → IsConsistent key c
      → ((i : K) → contains is i ≡ true → contains c.ids i ≡ true)
      → (xs : List V) × (map (λ i. lookup i c.by_id) is ≡ map some xs)
        × (map key xs ≡ is)
        × All (λ x. lookup (key x) c.by_id ≡ some x) xs
  listed_from-some c [] h sub = ([], refl, refl, tt)
  listed_from-some c (i ∷ is) h sub =
      let (xs, p, q, r) = listed_from-some c is h (λ j hj. sub j (ground arith)) in
      elim (Option-cases (lookup i c.by_id)) [
        | inl missing ↦ absurd (ground (arith, h.domain i, sub i, eq_refl i))
        | inr (x, found) ↦ (x ∷ xs, cc, cc (h.keyed i x found), (rw (h.keyed i x found) found, r))
      ]

  -- In a consistent collection no listed value is missing, and the values carry the listed ids.
  pub listed-some :
      (c : Collection K V)
      → IsConsistent key c
      → (xs : List V) × (listed c ≡ map some xs)
        × (map key xs ≡ c.ids)
        × All (λ x. lookup (key x) c.by_id ≡ some x) xs
  unfolding listed
  listed-some c h = listed_from-some c c.ids h (λ i hi. hi)

  pub lookup-index_from_other :
      (d : Dict K V) (xs : List V) (i : K)
      → contains (map key xs) i ≡ false
      → lookup i (index_from key d xs) ≡ lookup i d
  unfolding index_from
  lookup-index_from_other d [] i h = refl
  lookup-index_from_other d (x ∷ xs) i h =
      ground (arith, lookup-index_from_other (insert (key x) x d) xs i, lookup-insert i (key x) x d)

  map-lookup-index_from :
      (d : Dict K V) (xs : List V)
      → Distinct (map key xs)
      → map (λ i. lookup i (index_from key d xs)) (map key xs) ≡ map some xs
  unfolding index_from
  map-lookup-index_from d [] h = refl
  map-lookup-index_from d (x ∷ xs) (new, h) = cc (
    lookup-index_from_other (insert (key x) x d) xs (key x) new,
    lookup-insert (key x) (key x) x d,
    eq_refl (key x),
    map-lookup-index_from (insert (key x) x d) xs h,
  )

  -- Entities with distinct ids are listed as they were given.
  pub listed-of_list : (xs : List V) → Distinct (map key xs) → listed (of_list key xs) ≡ map some xs
  unfolding listed of_list
  listed-of_list xs h = map-lookup-index_from [] xs h
