-- ===== src/Incorporations/Selectors.antt =====
-- src/common/incorporations/selectors.js. The selectors for one company read a field of each row until
-- they find it, and throw at a row that is missing.
pub mod Details
use identity_wallet.Common.{
  Bool, true, false, Option, none, some, List, [], ◌∷◌, map, if◌then◌else◌, Result, ok, throw,
  type_error, ◌>>=◌,
}
use identity_wallet.Common.Collection.{Collection, listed}
use identity_wallet.Common.Dict.{Dict, lookup, insert}
use identity_wallet.Schema.Text.{Text, codes, text_eq}
use identity_wallet.Schema.Value.{Value, undefined, obj, Fields, end, get, put, strict_eq}
use identity_wallet.Incorporations.State.{State, Table, row_id}

unfoldable pub has_code : Value → Fields → Bool
unfolding strict_eq
has_code company_code row = strict_eq (get (codes "Company code") row) company_code

-- `rows.find(row => row['Company code'] === companyCode)`
unfoldable pub find_code : Value → List (Option Fields) → Result (Option Fields)
unfolding has_code
find_code company_code [] = ok none
find_code company_code (none ∷ rows) = throw type_error
find_code company_code (some row ∷ rows) =
    let rest = find_code company_code rows in
    if has_code company_code row then ok (some row) else rest

unfoldable pub get_main_incorporations : State → List (Option Fields)
get_main_incorporations s = listed s.incorporations

unfoldable pub get_taxes : State → List (Option Fields)
get_taxes s = listed s.taxes

unfoldable pub get_corporations : State → List (Option Fields)
get_corporations s = listed s.corporations

unfoldable pub get_llcs : State → List (Option Fields)
get_llcs s = listed s.llcs

unfoldable pub get_foundations : State → List (Option Fields)
get_foundations s = listed s.foundations

unfoldable pub get_trusts : State → List (Option Fields)
get_trusts s = listed s.trusts

unfoldable pub get_translation : State → Result (List (Option Fields))
get_translation s = elim s.translation [ none ↦ throw type_error | some t ↦ ok (listed t) ]

unfoldable pub get_tax_by_company_code : State → Value → Result (Option Fields)
unfolding get_taxes find_code
get_tax_by_company_code s code = find_code code (get_taxes s)

unfoldable pub get_translation_by_company_code : State → Value → Result (Option Fields)
unfolding get_translation find_code
get_translation_by_company_code s code = do rows ← get_translation s; find_code code rows

unfoldable pub get_main_incorporation_by_company_code : State → Value → Result (Option Fields)
unfolding get_main_incorporations find_code
get_main_incorporation_by_company_code s code = find_code code (get_main_incorporations s)

unfoldable pub get_corporations_by_company_code : State → Value → Result (Option Fields)
unfolding get_corporations find_code
get_corporations_by_company_code s code = find_code code (get_corporations s)

unfoldable pub get_llcs_by_company_code : State → Value → Result (Option Fields)
unfolding get_llcs find_code
get_llcs_by_company_code s code = find_code code (get_llcs s)

unfoldable pub get_foundations_by_company_code : State → Value → Result (Option Fields)
unfolding get_foundations find_code
get_foundations_by_company_code s code = find_code code (get_foundations s)

unfoldable pub get_trusts_by_company_code : State → Value → Result (Option Fields)
unfolding get_trusts find_code
get_trusts_by_company_code s code = find_code code (get_trusts s)

-- `if (!found) { found = next; }`
abbrev pub or_next : Result (Option Fields) → Option Fields → Result (Option Fields)
or_next next none = next
or_next next (some row) = ok (some row)

unfoldable pub get_details_for_company_code : State → Value → Result (Option Fields)
unfolding get_corporations_by_company_code get_llcs_by_company_code get_foundations_by_company_code
    get_trusts_by_company_code
get_details_for_company_code s code = do
  corporation ← get_corporations_by_company_code s code
  llc ← or_next (get_llcs_by_company_code s code) corporation
  foundation ← or_next (get_foundations_by_company_code s code) llc
  or_next (get_trusts_by_company_code s code) foundation

-- The value of a row that may be missing, and `row || {}`.
abbrev pub row_value : Option Fields → Value
row_value none = undefined
row_value (some o) = obj o

abbrev or_end : Option Fields → Fields
or_end none = end
or_end (some o) = o

-- `{ ...inc, tax }`; of an incorporation that is missing, its code is read.
unfoldable pub with_taxes : State → List (Option Fields) → Result (List Fields)
unfolding get_tax_by_company_code
with_taxes s [] = ok []
with_taxes s (none ∷ rows) = throw type_error
with_taxes s (some row ∷ rows) = do
  tax ← get_tax_by_company_code s (get (codes "Company code") row)
  rest ← with_taxes s rows
  ok (put (codes "tax") (obj (or_end tax)) row ∷ rest)

unfoldable pub get_main_incorporations_with_taxes : State → Result (List Fields)
unfolding get_main_incorporations with_taxes
get_main_incorporations_with_taxes s = with_taxes s (get_main_incorporations s)

abbrev found_row : Option Fields → Result Fields
found_row none = throw type_error
found_row (some row) = ok row

-- The row in the state is itself changed.
unfoldable pub get_incorporations_details : State → Value → Result (Fields × State)
unfolding get_main_incorporation_by_company_code get_tax_by_company_code
    get_translation_by_company_code get_details_for_company_code row_id insert
get_incorporations_details s code = do
  found ← get_main_incorporation_by_company_code s code
  row ← found_row found
  tax ← get_tax_by_company_code s code
  translation ← get_translation_by_company_code s code
  details ← get_details_for_company_code s code
  let row' =
      put (codes "details") (row_value details)
        (put (codes "translation") (row_value translation) (put (codes "tax") (row_value tax) row))
  let by_id = insert (row_id row) row' s.incorporations.by_id
  ok (row', record s { incorporations = record s.incorporations { by_id = by_id } })

-- `false` is nothing.
unfoldable pub rows_for : Text → Dict Text Table → Option (List (Option Fields))
unfolding lookup
rows_for [] d = none
rows_for (c ∷ country) d = elim (lookup (c ∷ country) d) [ none ↦ none | some t ↦ some (listed t) ]

unfoldable pub get_tax_treaties : State → Text → Option (List (Option Fields))
unfolding rows_for
get_tax_treaties s country_code = rows_for country_code s.treaties

unfoldable pub get_country : State → Text → Option (List (Option Fields))
unfolding rows_for
get_country s country_code = rows_for country_code s.countries
