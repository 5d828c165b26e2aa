-- ===== src/Incorporations/Tests.antt =====
-- Runs of the incorporations at small tables.
use identity_wallet.Common.{none, some, [], ◌∷◌, ◌++◌, ◌≡◌, refl, ok, throw, type_error}
use identity_wallet.Common.Collection.{listed, of_list}
use identity_wallet.Common.Dict.{lookup, insert}
use identity_wallet.Schema.Text.{Text, codes, text_eq}
use identity_wallet.Schema.Value.{str, Fields, end, field, get, to_text, strict_eq}
use identity_wallet.Staking.Chain.{pure, fail}
use identity_wallet.Incorporations.State.{row_id, State, initial_state}
use identity_wallet.Incorporations.Selectors.{
  find_code, get_corporations, get_llcs, get_foundations, get_trusts, get_details_for_company_code,
  get_translation,
}
use identity_wallet.Incorporations.Selectors.Details.{get_details_for_company_code-find}
use identity_wallet.Incorporations.Operations.{
  Tables, Services, World, load_incorporations_operation,
}
use identity_wallet.Incorporations.Operations.Outcome.{loaded, load_incorporations_operation-loaded}

abbrev row : Text → Text → Fields
row id code = field (codes "id") (str id) (field (codes "Company code") (str code) end)

abbrev tables : Tables
tables = record {
  incorporations = some (row (codes "1") (codes "HK") ∷ []);
  corporations = some [];
  llcs = some (row (codes "7") (codes "HK") ∷ []);
  foundations = none;
  taxes = some [];
  translation = some [];
}

abbrev services : Services Text
services = record {
  load_incorporations = pure tables;
  load_treaties_data = λ code. fail type_error;
  load_country_info = λ code. fail type_error;
}

abbrev world : World Text
world = record { services = []; state = initial_state }

-- The tables before the one that is missing are stored.
load_incorporations_operation-loaded_example :
    load_incorporations_operation services world
    ≡ (ok tt, record { services = []; state = loaded (ok tables) initial_state })
load_incorporations_operation-loaded_example = load_incorporations_operation-loaded services world

abbrev state : State
state = loaded (ok tables) initial_state

get_details_for_company_code-find_example :
    get_details_for_company_code state (str (codes "HK"))
    ≡ find_code
        (str (codes "HK"))
        (get_corporations state ++ get_llcs state ++ get_foundations state ++ get_trusts state)
get_details_for_company_code-find_example =
    get_details_for_company_code-find state (str (codes "HK"))

get_details_test :
    get_details_for_company_code state (str (codes "HK")) ≡ ok (some (row (codes "7") (codes "HK")))
unfolding get_details_for_company_code get to_text strict_eq text_eq listed of_list lookup insert
    row_id
get_details_test = refl

-- Before the translations are there, the details of an incorporation cannot be read.
get_translation_test : get_translation initial_state ≡ throw type_error
unfolding get_translation
get_translation_test = refl
