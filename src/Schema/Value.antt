-- ===== src/Schema/Value.antt =====
-- JSON values, and the operations of JavaScript on them that the program uses.
use identity_wallet.Common.{
  ℕ, zero, suc, Bool, true, false, ◌||◌, [], ◌∷◌, ◌++◌, if◌then◌else◌, ◌==◌, nat_eq,
}
use identity_wallet.Schema.Text.{Text, codes, decimal, text_eq}

mutual
  pub data Value : Type 0 where
    undefined null : Value
    bool : Bool → Value
    num : ℕ → Value
    str : Text → Value
    arr : Items → Value
    obj : Fields → Value

  pub data Items : Type 0 where
    nil : Items
    cons : Value → Items → Items

  -- The own properties of an object, in order.
  pub data Fields : Type 0 where
    end : Fields
    field : Text → Value → Fields → Fields

-- `o[k]`
unfoldable pub get : Text → Fields → Value
get k end = undefined
get k (field j v o) = if k == j then v else get k o

-- `{ ...o, [k]: v }`
unfoldable pub put : Text → Value → Fields → Fields
put k v end = field k v end
put k v (field j w o) = if k == j then field k v o else field j w (put k v o)

-- `delete o[k]`
unfoldable pub drop_field : Text → Fields → Fields
drop_field k end = end
drop_field k (field j w o) = let rest = drop_field k o in if k == j then rest else field j w rest

-- `o.hasOwnProperty(k)`
unfoldable pub has_field : Text → Fields → Bool
has_field k end = false
has_field k (field j w o) = k == j || has_field k o

-- The test of a condition; `NaN` does not occur.
unfoldable pub truthy : Value → Bool
truthy undefined = false
truthy null = false
truthy (bool b) = b
truthy (num zero) = false
truthy (num (suc n)) = true
truthy (str []) = false
truthy (str (c ∷ s)) = true
truthy (arr xs) = true
truthy (obj o) = true

-- `a === b`. Two arrays or two objects are different references.
unfoldable pub strict_eq : Value → Value → Bool
strict_eq undefined undefined = true
strict_eq null null = true
strict_eq (bool true) (bool true) = true
strict_eq (bool false) (bool false) = true
strict_eq (num m) (num n) = m == n
strict_eq (str s) (str t) = s == t
strict_eq _ _ = false

-- `typeof v === 'object'`, true of `null` and of arrays too.
unfoldable pub typeof_object : Value → Bool
typeof_object null = true
typeof_object (arr xs) = true
typeof_object (obj o) = true
typeof_object _ = false

-- An array's elements as properties, `{ ...xs }`, from index `i`.
unfoldable pub indexed : ℕ → Items → Fields
indexed i nil = end
indexed i (cons x xs) = field (decimal i) x (indexed (suc i) xs)

-- `{ ...v }`
unfoldable pub spread : Value → Fields
unfolding indexed
spread (obj o) = o
spread (arr xs) = indexed 0 xs
spread _ = end

unfoldable pub count_items : Items → ℕ
count_items nil = 0
count_items (cons x xs) = suc (count_items xs)

unfoldable pub snoc : Items → Value → Items
snoc nil v = cons v nil
snoc (cons x xs) v = cons x (snoc xs v)

-- `${v}`, the text of a value in a template.
unfoldable mutual
  pub to_text : Value → Text
  to_text undefined = codes "undefined"
  to_text null = codes "null"
  to_text (bool true) = codes "true"
  to_text (bool false) = codes "false"
  to_text (num n) = decimal n
  to_text (str s) = s
  to_text (arr xs) = join_items xs
  to_text (obj o) = codes "[object Object]"

  -- `xs.join(',')`, in which `undefined` and `null` are empty.
  pub join_items : Items → Text
  join_items nil = []
  join_items (cons x nil) = element_text x
  join_items (cons x (cons y xs)) = element_text x ++ 44 ∷ join_items (cons y xs)

  pub element_text : Value → Text
  element_text undefined = []
  element_text null = []
  element_text (bool true) = codes "true"
  element_text (bool false) = codes "false"
  element_text (num n) = decimal n
  element_text (str s) = s
  element_text (arr xs) = join_items xs
  element_text (obj o) = codes "[object Object]"
