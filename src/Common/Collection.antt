-- ===== src/Common/Collection.antt =====
-- The shape in which the reducers keep entities: the list of ids in the order of arrival, and the
-- object from each id to its entity (`documents` and `documentsById`, and so on).
pub mod Laws
pub mod Select
use mathlib.Core.Path.{◌≡◌, refl, sym, ap, ◌∙◌}
use mathlib.Core.Bool.{Bool, true, false, ◌||◌}
use mathlib.Core.Option.{Option, none, some}
use mathlib.Core.List.{List, [], ◌∷◌, ◌++◌, map, map-append}
use native.Mathlib.Omega.{arith}
use identity_wallet.Common.Tests.{if◌then◌else◌, is_some, Bool-cases}
use identity_wallet.Common.Lists.{filter}
use identity_wallet.Common.Equality.{Eq, ◌==◌, contains, eq_refl}
use identity_wallet.Common.Outcome.{Result, ok, throw, type_error, ◌>>=◌}
use identity_wallet.Common.Dict.{
  Dict, lookup, insert, erase, lookup-nil, lookup-insert, lookup-erase,
}

pub record Collection (K V : Type 0) : Type 0 where
  pub ids : List K
  pub by_id : Dict K V

abbrev pub empty : {K V : Type 0} → Collection K V
empty = record { ids = []; by_id = [] }

-- `.filter(x => p(x))` over values of which some may be `undefined`: the test reads a field of
-- each, and throws at the first that is missing.
unfoldable pub keep : {V : Type 0} → (V → Bool) → List (Option V) → Result (List V)
keep p [] = ok []
keep p (none ∷ xs) = throw type_error
keep p (some x ∷ xs) = do rest ← keep p xs; ok (if p x then x ∷ rest else rest)

module _ {K V : Type 0} ⦃e : Eq K⦄ where
  -- `ids.map(id => byId[id])`
  unfoldable pub listed : Collection K V → List (Option V)
  listed c = map (λ i. lookup i c.by_id) c.ids

  -- `delete byId[id]` and `ids.filter(x => x !== id)`
  unfoldable pub remove : K → Collection K V → Collection K V
  remove i c = record {
    ids = filter (λ j. if j == i then false else true) c.ids;
    by_id = erase i c.by_id;
  }

module _ {K V : Type 0} ⦃e : Eq K⦄ (key : V → K) where
  -- `xs.reduce((acc, curr) => { acc[curr.id] = curr; return acc; }, d)`
  unfoldable pub index_from : Dict K V → List V → Dict K V
  index_from d [] = d
  index_from d (x ∷ xs) = index_from (insert (key x) x d) xs

  -- The list of entities as ids and object, as every `set…` reducer builds them.
  unfoldable pub of_list : List V → Collection K V
  unfolding index_from
  of_list xs = record { ids = map key xs; by_id = index_from [] xs }

  -- `[...ids, x.id]` and `{ ...byId, [x.id]: x }`
  unfoldable pub add : V → Collection K V → Collection K V
  add x c = record { ids = c.ids ++ key x ∷ []; by_id = insert (key x) x c.by_id }

  -- Exactly the listed ids are stored, and each under its own id.
  pub record IsConsistent (c : Collection K V) : Type 0 where
    pub domain : (i : K) → is_some (lookup i c.by_id) ≡ contains c.ids i
    pub keyed : (i : K) (x : V) → lookup i c.by_id ≡ some x → key x ≡ i
