-- ===== src/Schema/Tests.antt =====
-- The theorems on schemas, at a schema with a file in an array and one without.
use identity_wallet.Common.{
  ◌≡◌, refl, true, false, not, Option, none, some, [], ◌∷◌, filter, ok, nat_eq, option_eq,
}
use identity_wallet.Schema.Text.{Text, codes, text_eq, decimal}
use identity_wallet.Schema.Value.{
  Value, Fields, num, str, obj, end, field, get, strict_eq, truthy, has_field,
}
use identity_wallet.Schema.Types.{
  Keywords, Schema, PropertyList, schema, no_properties, properties, property, no_item, item,
}
use identity_wallet.Schema.Reference.{
  match_reference, id_reference, new_name, new_reference, match_reference-id, match_reference-new,
  group_number,
}
use identity_wallet.Schema.Documents.{
  id_key, refers, put_document, denormalize_file, default_depth, normalize_documents_schema,
  denormalize_documents_schema,
}
use identity_wallet.Schema.Documents.RoundTrip.{
  denormalize-normalize_stored, denormalize-normalize_new,
}
use identity_wallet.Schema.Meta.{
  contains_file, any_contains_file, remove_meta, remove_meta_idem, contains_file-remove_meta,
}
use identity_wallet.Schema.Files.{SameAndKeeps, normalize-eq-denormalize}

abbrev keywords : Text → Option Text → Keywords
keywords type format = record {
  id = some (codes "http://platform.selfkey.org/schema");
  dialect = none;
  format = format;
  type = some type;
  rest = end;
}

abbrev text_schema : Schema
text_schema = schema (keywords (codes "string") none) no_properties no_item

abbrev file_schema : Schema
file_schema = schema (keywords (codes "object") (some (codes "file"))) no_properties no_item

abbrev with_file : Schema
with_file =
    schema (keywords (codes "object") none)
      (properties (
        property (codes "scans")
          (schema (keywords (codes "array") none) no_properties (item file_schema))
          PropertyList.end))
      no_item

abbrev without_file : Schema
without_file =
    schema (keywords (codes "object") none)
      (properties (property (codes "name") text_schema PropertyList.end)) no_item

abbrev stored : Fields
stored = field id_key (num 7) (field (codes "content") (str (codes "scan")) end)

abbrev fresh : Fields
fresh = field (codes "content") (str (codes "scan")) end

abbrev other : Fields
other = field id_key (num 3) end

abbrev person : Value
person = obj (field (codes "name") (str (codes "Ann")) end)

finds_file : contains_file default_depth (item with_file) ≡ ok true
unfolding contains_file any_contains_file option_eq text_eq
finds_file = refl

finds_none : contains_file default_depth (item without_file) ≡ ok false
unfolding contains_file any_contains_file option_eq text_eq
finds_none = refl

match_reference-id_example : match_reference (id_reference (decimal 42)) ≡ some (decimal 42)
match_reference-id_example = match_reference-id 42

match_reference-new_test : match_reference (new_reference 3) ≡ some (new_name 3)
match_reference-new_test = match_reference-new 3

denormalize-normalize_stored_example :
    let (value, moved) = put_document stored (other ∷ []) in
    denormalize_file value moved
    ≡ (obj stored, filter (λ d. not (strict_eq (get id_key d) (num 7))) (other ∷ []))
unfolding get has_field strict_eq nat_eq text_eq
denormalize-normalize_stored_example =
    denormalize-normalize_stored stored 6 (other ∷ []) refl refl (refl, tt)

denormalize-normalize_new_example :
    let (value, moved) = put_document fresh (other ∷ []) in
    denormalize_file value moved ≡ (obj fresh, other ∷ [])
unfolding get has_field truthy strict_eq refers group_number decimal nat_eq text_eq
denormalize-normalize_new_example =
    denormalize-normalize_new fresh (other ∷ []) refl refl (refl, tt)

remove_meta_idem_test :
    remove_meta default_depth (remove_meta default_depth with_file)
    ≡ remove_meta default_depth with_file
remove_meta_idem_test = remove_meta_idem default_depth with_file

contains_file-remove_meta_example :
    contains_file default_depth (item (remove_meta default_depth with_file)) ≡ ok true
contains_file-remove_meta_example =
    contains_file-remove_meta default_depth with_file true finds_file

normalize-eq-denormalize_example :
    SameAndKeeps
      (other ∷ [])
      (normalize_documents_schema without_file person (other ∷ []))
      (denormalize_documents_schema without_file person (other ∷ []))
normalize-eq-denormalize_example =
    normalize-eq-denormalize without_file person (other ∷ []) finds_none
