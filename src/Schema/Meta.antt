-- ===== src/Schema/Meta.antt =====
-- `containsFile` and `removeMeta` of src/common/identity/utils.js, by the depth left,
-- `maxDepth + 1`. A schema that is `undefined` is `no_item`.
use identity_wallet.Common.{
  ℕ, zero, suc, ◌≡◌, refl, ap, Bool, true, false, none, some, arith, if◌then◌else◌, Result, ok,
  throw, type_error, ◌>>=◌, >>=-eq-ok, throw-ne-ok, ◌==◌, option_eq,
}
use identity_wallet.Schema.Text.{codes, text_eq}
use identity_wallet.Schema.Value.{end}
use identity_wallet.Schema.Types.{
  Keywords, Schema, PropertyList, Item, schema, no_properties, properties, property, no_item, item,
}

abbrev pub is_object : Keywords → Bool
is_object kw = kw.type == some (codes "object")

abbrev pub is_array : Keywords → Bool
is_array kw = kw.type == some (codes "array")

-- The loop over the properties, which returns at the first that contains a file.
unfoldable pub any_contains_file : (Item → Result Bool) → PropertyList → Result Bool
any_contains_file rec PropertyList.end = ok false
any_contains_file rec (property k s more) =
    let rest = any_contains_file rec more in
    do found ← rec (item s); if found then ok true else rest

unfoldable pub contains_file : ℕ → Item → Result Bool
unfolding any_contains_file
contains_file zero it = ok false
contains_file (suc n) no_item = throw type_error
contains_file (suc n) (item (schema kw props it)) =
    let below = contains_file n it in
    if kw.format == some (codes "file")
    then ok true
    else if is_object kw
    then elim props [
      | no_properties ↦ ok false
      | properties ps ↦ any_contains_file (contains_file n) ps
    ]
    else if is_array kw
    then below
    else ok false

abbrev no_keywords : Keywords
no_keywords = record { id = none; dialect = none; format = none; type = none; rest = end }

abbrev map_properties : (Schema → Schema) → PropertyList → PropertyList
map_properties f PropertyList.end = PropertyList.end
map_properties f (property k s more) = property k (f s) (map_properties f more)

-- `removeMeta(undefined, …)` is `{}`, if there is depth left.
abbrev item_meta : ℕ → (Schema → Schema) → Item → Item
item_meta zero f it = it
item_meta (suc n) f no_item = item (schema no_keywords no_properties no_item)
item_meta (suc n) f (item s) = item (f s)

unfoldable pub remove_meta : ℕ → Schema → Schema
remove_meta zero s = s
remove_meta (suc n) (schema kw props it) =
    schema (record kw { id = none; dialect = none })
      (if is_object kw
        then elim props [
          | no_properties ↦ no_properties
          | properties ps ↦ properties (map_properties (remove_meta n) ps)
        ]
        else props)
      (if is_array kw then item_meta n (remove_meta n) it else it)

map_properties_idem :
    (f : Schema → Schema)
    → ((s : Schema) → f (f s) ≡ f s)
    → (ps : PropertyList) → map_properties f (map_properties f ps) ≡ map_properties f ps
map_properties_idem f h PropertyList.end = refl
map_properties_idem f h (property k s more) = cc (h s, map_properties_idem f h more)

item_meta_idem :
    (n : ℕ) (it : Item)
    → ((s : Schema) → remove_meta n (remove_meta n s) ≡ remove_meta n s)
    → item_meta n (remove_meta n) (item_meta n (remove_meta n) it) ≡ item_meta n (remove_meta n) it
unfolding remove_meta option_eq text_eq
item_meta_idem zero it h = refl
item_meta_idem (suc n) no_item h = refl
item_meta_idem (suc n) (item s) h = ap item (h s)

-- Removing the meta keywords a second time changes nothing.
pub remove_meta_idem : (n : ℕ) (s : Schema) → remove_meta n (remove_meta n s) ≡ remove_meta n s
unfolding remove_meta
remove_meta_idem zero s = refl
remove_meta_idem (suc n) (schema kw no_properties it) =
    ground (arith, item_meta_idem n it (remove_meta_idem n))
remove_meta_idem (suc n) (schema kw (properties ps) it) = ground (
  arith,
  item_meta_idem n it (remove_meta_idem n),
  map_properties_idem (remove_meta n) (remove_meta_idem n) ps,
)

contains_file-properties :
    (n : ℕ) (ps : PropertyList) (b : Bool)
    → ((s : Schema) (b : Bool)
        → contains_file n (item s) ≡ ok b
        → contains_file n (item (remove_meta n s)) ≡ ok b)
    → any_contains_file (contains_file n) ps ≡ ok b
    → any_contains_file (contains_file n) (map_properties (remove_meta n) ps) ≡ ok b
unfolding any_contains_file
contains_file-properties n PropertyList.end b h e = e
contains_file-properties n (property k s more) b h e =
    let (found, here, rest) = >>=-eq-ok (contains_file n (item s)) _ e in
    ground (arith, h s found here, rest, contains_file-properties n more b h)

contains_file-item :
    (n : ℕ) (it : Item) (b : Bool)
    → ((s : Schema) (b : Bool)
        → contains_file n (item s) ≡ ok b
        → contains_file n (item (remove_meta n s)) ≡ ok b)
    → contains_file n it ≡ ok b
    → contains_file n (item_meta n (remove_meta n) it) ≡ ok b
unfolding contains_file
contains_file-item zero it b h e = e
contains_file-item (suc n) no_item b h e = absurd (throw-ne-ok e)
contains_file-item (suc n) (item s) b h e = h s b e

-- Where the search for a file returns, it finds the same in the schema without meta keywords.
pub contains_file-remove_meta :
    (n : ℕ) (s : Schema) (b : Bool)
    → contains_file n (item s) ≡ ok b
    → contains_file n (item (remove_meta n s)) ≡ ok b
unfolding contains_file remove_meta
contains_file-remove_meta zero s b e = e
contains_file-remove_meta (suc n) (schema kw no_properties it) b e =
    ground (arith, contains_file-item n it b (contains_file-remove_meta n))
contains_file-remove_meta (suc n) (schema kw (properties ps) it) b e = ground (
  arith,
  contains_file-item n it b (contains_file-remove_meta n),
  contains_file-properties n ps b (contains_file-remove_meta n),
)
