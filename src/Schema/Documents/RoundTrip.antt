-- ===== src/Schema/Documents/RoundTrip.antt =====
-- One document out to the list and back: the `file` branches of `normalizeDocumentsSchema` and
-- `denormalizeDocumentsSchema` undo one another.
use identity_wallet.Common.{
  ℕ, suc, ◌≡◌, refl, ap, ◌∙◌, Bool, true, false, not, ◌||◌, some, [], ◌∷◌, ◌++◌, arith, length,
  filter, All, eq_refl, nat_eq,
}
use identity_wallet.Schema.Text.{Text, text_eq, decimal, number_from-decimal, decimal-AllDigits}
use identity_wallet.Schema.Value.{
  Value, Fields, num, str, obj, end, field, get, put, drop_field, has_field, truthy, strict_eq,
  to_text,
}
use identity_wallet.Schema.Reference.{
  match_reference, match_reference-id, match_reference-new, group_number, AllDigits-all_digits,
  id_reference, new_name, new_reference,
}
use identity_wallet.Schema.Documents.{
  Documents, id_key, name_key, refers, take_document, denormalize_file, put_document,
}

drop_field_absent : (k : Text) (o : Fields) → has_field k o ≡ false → drop_field k o ≡ o
unfolding drop_field has_field
drop_field_absent k end h = refl
drop_field_absent k (field j v o) h = ground (arith, drop_field_absent k o)

drop_field-put :
    (k : Text) (v : Value) (o : Fields) → has_field k o ≡ false → drop_field k (put k v o) ≡ o
unfolding drop_field has_field put
drop_field-put k v end h = ground arith
drop_field-put k v (field j w o) h = ground (arith, drop_field-put k v o)

get-put : (k : Text) (v : Value) (o : Fields) → get k (put k v o) ≡ v
unfolding get put
get-put k v end = ground arith
get-put k v (field j w o) = ground (arith, get-put k v o)

group_number-decimal : (n : ℕ) → group_number (decimal n) ≡ some n
unfolding group_number
group_number-decimal n =
    rw (AllDigits-all_digits (decimal n) (decimal-AllDigits n)) (ap some (number_from-decimal n))

found-last :
    (id : Text) (docs : Documents) (o : Fields)
    → All (λ d. refers id d ≡ false) docs
    → refers id o ≡ true
    → filter (refers id) (docs ++ o ∷ []) ≡ o ∷ []
found-last id [] o others this = rw this
found-last id (d ∷ docs) o others this = rw others.0 (found-last id docs o others.1 this)

rest-last :
    (id : Text) (docs : Documents) (o : Fields)
    → All (λ d. refers id d ≡ false) docs
    → refers id o ≡ true
    → filter (λ d. not (refers id d)) (docs ++ o ∷ []) ≡ docs
rest-last id [] o others this = rw this
rest-last id (d ∷ docs) o others this = rw others.0 (ap (d ∷◌) (rest-last id docs o others.1 this))

-- The one document that a name refers to, at the end of the list.
take_document-last :
    (id : Text) (docs : Documents) (o : Fields)
    → All (λ d. refers id d ≡ false) docs
    → refers id o ≡ true
    → take_document id (docs ++ o ∷ []) ≡ (obj (drop_field name_key o), docs)
unfolding take_document
take_document-last id docs o others this =
    rw (found-last id docs o others this, rest-last id docs o others this, take_document)

denormalize_file-ref :
    (c : ℕ) (s id : Text) (docs : Documents)
    → match_reference (c ∷ s) ≡ some id
    → denormalize_file (str (c ∷ s)) docs ≡ take_document id docs
unfolding denormalize_file
denormalize_file-ref c s id docs e = rw (e, denormalize_file)

abbrev others : ℕ → Documents → Documents
others n = filter (λ d. not (strict_eq (get id_key d) (num n)))

put_document-stored :
    (o : Fields) (n : ℕ) (docs : Documents)
    → get id_key o ≡ num (suc n)
    → put_document o docs ≡ (str (id_reference (decimal (suc n))), others (suc n) docs ++ o ∷ [])
unfolding put_document truthy to_text
put_document-stored o n docs stored = rw (stored, put_document)

put_document-new :
    (o : Fields) (docs : Documents)
    → truthy (get id_key o) ≡ false
    → put_document o docs ≡ (
      str (new_reference (length docs)),
      docs ++ put name_key (str (new_name (length docs))) o ∷ [],
    )
unfolding put_document
put_document-new o docs new = rw (new, put_document)

-- Another document is not referred to by the numeral of an id.
refers-others :
    (n : ℕ) (docs : Documents)
    → All (λ d. strict_eq (get name_key d) (str (decimal n)) ≡ false) docs
    → All (λ d. refers (decimal n) d ≡ false) (others n docs)
unfolding refers
refers-others n [] h = tt
refers-others n (d ∷ docs) h = ground (arith, group_number-decimal n, h.0, refers-others n docs h.1)

refers-stored : (n : ℕ) (o : Fields) → get id_key o ≡ num n → refers (decimal n) o ≡ true
unfolding refers strict_eq
refers-stored n o e = rw (group_number-decimal n, refers) (rw e (rw (eq_refl n)))

or_true : (a b : Bool) → b ≡ true → (a || b) ≡ true
or_true true b h = refl
or_true false b h = h

refers-new : (id : Text) (o : Fields) → refers id (put name_key (str id) o) ≡ true
unfolding refers strict_eq
refers-new id o =
    or_true _ _ (ap (λ v. strict_eq v (str id)) (get-put name_key (str id) o) ∙ eq_refl id)

-- If a stored document, with a positive number for an id and no `#id`, is moved out to a list in
-- which no `#id` is the id's numeral, then it comes back. The list is then that of before, less the
-- documents with this id.
pub denormalize-normalize_stored :
    (o : Fields) (n : ℕ) (docs : Documents)
    → get id_key o ≡ num (suc n)
    → has_field name_key o ≡ false
    → All (λ d. strict_eq (get name_key d) (str (decimal (suc n))) ≡ false) docs
    → let (value, moved) = put_document o docs in
      denormalize_file value moved
      ≡ (obj o, filter (λ d. not (strict_eq (get id_key d) (num (suc n)))) docs)
denormalize-normalize_stored o n docs stored bare names = rw (put_document-stored o n docs stored) (
    denormalize_file-ref _ _ (decimal (suc n)) (others (suc n) docs ++ o ∷ [])
      (match_reference-id (suc n))
    ∙ take_document-last (decimal (suc n)) (others (suc n) docs) o
        (refers-others (suc n) docs names) (refers-stored (suc n) o stored)
    ∙ cc (drop_field_absent name_key o bare))

-- If a new document, with no id and no `#id`, is moved out to a list in which the name that it is
-- given there refers to no document, then it comes back, and the list is that of before.
pub denormalize-normalize_new :
    (o : Fields) (docs : Documents)
    → truthy (get id_key o) ≡ false
    → has_field name_key o ≡ false
    → All (λ d. refers (new_name (length docs)) d ≡ false) docs
    → let (value, moved) = put_document o docs in denormalize_file value moved ≡ (obj o, docs)
denormalize-normalize_new o docs new bare names =
    let named = put name_key (str (new_name (length docs))) o in
    rw (put_document-new o docs new) (
      denormalize_file-ref _ _ (new_name (length docs)) (docs ++ named ∷ [])
        (match_reference-new (length docs))
      ∙ take_document-last (new_name (length docs)) docs named names
          (refers-new (new_name (length docs)) o)
      ∙ cc (drop_field-put name_key (str (new_name (length docs))) o bare))
