-- ===== src/Schema/Files.antt =====
-- A schema without files: normalizing and denormalizing are the same, and leave the documents.
use identity_wallet.Common.{
  ℕ, zero, suc, ◌≡◌, refl, Bool, true, false, Option, none, some, if◌then◌else◌, Result, ok, throw,
  ◌>>=◌, throw-ne-ok, Result-cases, Option-cases, eq_of_true, inl, inr, Bool-cases, ◌==◌, option_eq,
}
use identity_wallet.Schema.Text.{Text, codes, text_eq}
use identity_wallet.Schema.Value.{Value, Items, Fields, nil, cons, end, snoc, typeof_object}
use identity_wallet.Schema.Types.{
  Keywords, Schema, Properties, PropertyList, Item, schema, no_properties, properties, property,
  no_item, item,
}
use identity_wallet.Schema.Documents.{
  Documents, Walk, own, walk_child, walk_properties, walk_items, as_items, walk_node, walk,
  default_depth, normalize_documents_schema, denormalize_documents_schema, normalize_file,
  denormalize_file,
}
use identity_wallet.Schema.Meta.{is_object, is_array, contains_file, any_contains_file}

abbrev FileBranch : Type 0
FileBranch = Value → Documents → Value × Documents

-- The call returns the documents that it was given, if it returns.
abbrev pub Keeps : {A : Type 0} → Documents → Result (A × Documents) → Type 0
Keeps docs (ok (v, docs')) = docs' ≡ docs
Keeps docs (throw e) = Unit

-- Two calls return the same, and keep the documents.
abbrev pub SameAndKeeps :
    {A : Type 0} → Documents → Result (A × Documents) → Result (A × Documents) → Type 0
SameAndKeeps docs p q = (p ≡ q) × Keeps docs p

abbrev Agree : Walk → Walk → Item → Type 0
Agree f g it = (v : Value) (docs : Documents) → SameAndKeeps docs (f it v docs) (g it v docs)

bind-Agree :
    {A B : Type 0} (p q : Result (A × Documents)) (docs : Documents)
    (k l : A × Documents → Result (B × Documents))
    → SameAndKeeps docs p q
    → ((v : A) → SameAndKeeps docs (k (v, docs)) (l (v, docs)))
    → SameAndKeeps docs (p >>= k) (q >>= l)
bind-Agree (ok (v, d)) q docs k l (e, same) h = rw (← e, same) (h v)
bind-Agree (throw x) q docs k l (e, same) h = rw (← e) (refl, tt)

module _ (f g : Walk) where
  walk_items-Agree :
      (it : Item)
      → Agree f g it
      → (xs acc : Items) (docs : Documents)
      → SameAndKeeps docs (walk_items f it xs acc docs) (walk_items g it xs acc docs)
  unfolding walk_items
  walk_items-Agree it h nil acc docs = (refl, refl)
  walk_items-Agree it h (cons x xs) acc docs =
      bind-Agree (f it x docs) (g it x docs) docs _ _ (h x docs)
        (λ x'. walk_items-Agree it h xs (snoc acc x') docs)

  abbrev AllAgree : PropertyList → Type 0
  AllAgree PropertyList.end = Unit
  AllAgree (property k s more) = Agree f g (item s) × AllAgree more

  walk_child-Agree :
      (k : Text) (s : Schema) (child : Option Value) (acc : Fields) (docs : Documents)
      → Agree f g (item s)
      → SameAndKeeps docs (walk_child f k s child acc docs) (walk_child g k s child acc docs)
  unfolding walk_child
  walk_child-Agree k s none acc docs h = (refl, refl)
  walk_child-Agree k s (some v) acc docs h =
      bind-Agree (f (item s) v docs) (g (item s) v docs) docs _ _ (h v docs) (λ v'. (refl, refl))

  walk_properties-Agree :
      (ps : PropertyList)
      → AllAgree ps
      → (value : Value) (acc : Fields) (docs : Documents)
      → SameAndKeeps docs
          (walk_properties f ps value acc docs)
          (walk_properties g ps value acc docs)
  unfolding walk_properties
  walk_properties-Agree PropertyList.end h value acc docs = (refl, refl)
  walk_properties-Agree (property k s more) h value acc docs = elim (Result-cases (own value k)) [
    | inl (child, e) ↦ rw e (
        bind-Agree (walk_child f k s child acc docs) (walk_child g k s child acc docs) docs _ _
          (walk_child-Agree k s child acc docs h.0)
          (λ acc'. walk_properties-Agree more h.1 value acc' docs))
    | inr (x, e) ↦ rw e (refl, tt)
  ]

AllAgree-no_file :
    (f g : Walk) (n : ℕ)
    → ((s : Schema) → contains_file n (item s) ≡ ok false → Agree f g (item s))
    → (ps : PropertyList) → any_contains_file (contains_file n) ps ≡ ok false
    → AllAgree f g ps
unfolding any_contains_file
AllAgree-no_file f g n h PropertyList.end e = tt
AllAgree-no_file f g n h (property k s more) e = elim (Result-cases (contains_file n (item s))) [
  | inl (true, here) ↦ cc
  | inl (false, here) ↦ (h s here, AllAgree-no_file f g n h more (rw here at e))
  | inr (x, here) ↦ absurd (throw-ne-ok (rw here at e))
]

-- A type is not both.
is_object-is_array : (kw : Keywords) → is_object kw ≡ true → is_array kw ≡ false
unfolding option_eq text_eq
is_object-is_array kw h = rw (eq_of_true kw.type (some (codes "object")) h) refl

-- The branch on arrays, alone.
abbrev array_branch : Bool → Walk → Item → Value → Documents → Result (Value × Documents)
array_branch is_arr rec it value docs =
    if is_arr
    then elim (as_items value) [ none ↦ ok (value, docs) | some xs ↦ walk_items rec it xs nil docs ]
    else ok (value, docs)

array_branch-Agree :
    (f g : Walk) (b : Bool) (it : Item) (v : Value) (docs : Documents)
    → (b ≡ true → Agree f g it)
    → SameAndKeeps docs (array_branch b f it v docs) (array_branch b g it v docs)
array_branch-Agree f g false it v docs h = (refl, refl)
array_branch-Agree f g true it v docs h = elim (Option-cases (as_items v)) [
  | inl other ↦ rw other (refl, refl)
  | inr (xs, e) ↦ rw e (walk_items-Agree f g it (h refl) xs nil docs)
]

-- A node that is no file.
walk_node-Agree :
    (file file' : FileBranch) (f g : Walk) (kw : Keywords) (props : Properties) (it : Item)
    (v : Value) (docs : Documents)
    → (kw.format == some (codes "file")) ≡ false
    → (is_object kw ≡ true → (ps : PropertyList) → props ≡ properties ps → AllAgree f g ps)
    → (is_object kw ≡ false → is_array kw ≡ true → Agree f g it)
    → SameAndKeeps docs
        (walk_node file f (item (schema kw props it)) v docs)
        (walk_node file' g (item (schema kw props it)) v docs)
unfolding walk_node
walk_node-Agree file file' f g kw props it v docs plain h k =
    rw plain (elim (Bool-cases (is_object kw)) [
      | inl object ↦ elim (Bool-cases (typeof_object v)) [
        | inl is_obj ↦ rw (object, is_obj) (on_properties props (h object))
        | inr not_obj ↦
            rw (object, not_obj)
              (array_branch-Agree f g (is_array kw) it v docs
                (λ arr. cc (is_object-is_array kw object)))
      ]
      | inr other ↦ rw other (array_branch-Agree f g (is_array kw) it v docs (k other))
    ])
  where
    on_properties :
        (props : Properties)
        → ((ps : PropertyList) → props ≡ properties ps → AllAgree f g ps)
        → SameAndKeeps docs
            (elim props [
              | no_properties ↦ ok (v, docs)
              | properties ps ↦ walk_properties f ps v end docs
            ])
            (elim props [
              | no_properties ↦ ok (v, docs)
              | properties ps ↦ walk_properties g ps v end docs
            ])
    on_properties no_properties h = (refl, refl)
    on_properties (properties ps) h = walk_properties-Agree f g ps (h ps refl) v end docs

module _ (file file' : FileBranch) where
  walk-Agree :
      (n : ℕ) (it : Item) → contains_file n it ≡ ok false → Agree (walk file n) (walk file' n) it
  unfolding walk contains_file
  walk-Agree zero it e v docs = (refl, refl)
  walk-Agree (suc n) no_item e v docs = (refl, tt)
  walk-Agree (suc n) (item (schema kw props it)) e v docs =
      let ih = walk-Agree n in
      elim (Bool-cases (kw.format == some (codes "file"))) [
        | inl is_file ↦ cc (rw is_file at e)
        | inr plain ↦
            let e' = rw plain at e in
            walk_node-Agree file file' (walk file n) (walk file' n) kw props it v docs plain
              (λ object ps same.
                AllAgree-no_file (walk file n) (walk file' n) n (λ s. ih (item s)) ps
                  (rw (object, same) at e'))
              (λ other arr. ih it (rw (other, arr) at e'))
      ]

-- In a schema where `containsFile` finds none, normalizing and denormalizing return the same, on any
-- value and documents, and the documents are those that were given.
pub normalize-eq-denormalize :
    (s : Schema) (v : Value) (docs : Documents)
    → contains_file default_depth (item s) ≡ ok false
    → SameAndKeeps docs
        (normalize_documents_schema s v docs)
        (denormalize_documents_schema s v docs)
unfolding normalize_documents_schema denormalize_documents_schema
normalize-eq-denormalize s v docs e =
    walk-Agree normalize_file denormalize_file default_depth (item s) e v docs
