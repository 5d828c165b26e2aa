-- ===== src/Incorporations/State.antt =====
-- The tables of incorporations, their actions and reducers:
-- src/common/incorporations/{reducers,actions}.js. The fields `details` and `guarantee` are not
-- written; `error` is null or true. A payload that is missing has no `map`.
use identity_wallet.Common.{
  Bool, true, false, Option, none, some, List, [], Result, ok, throw, type_error,
}
use identity_wallet.Common.Collection.{Collection, empty, of_list}
use identity_wallet.Common.Dict.{Dict, insert}
use identity_wallet.Schema.Text.{Text, codes, text_eq}
use identity_wallet.Schema.Value.{Fields, get, to_text}

abbrev pub Table : Type 0
Table = Collection Text Fields

-- What an action carries: rows, if there are any.
abbrev pub Rows : Type 0
Rows = Option (List Fields)

-- `translation` is an object before it is set, which has no `map`. Treaties and countries are fields of
-- the state that are named after a country.
pub record State : Type 0 where
  pub loading : Bool
  pub error : Bool
  pub incorporations : Table
  pub taxes : Table
  pub llcs : Table
  pub trusts : Table
  pub corporations : Table
  pub foundations : Table
  pub translation : Option Table
  pub treaties : Dict Text Table
  pub countries : Dict Text Table

abbrev pub initial_state : State
initial_state = record {
  loading = true;
  error = false;
  incorporations = empty;
  taxes = empty;
  llcs = empty;
  trusts = empty;
  corporations = empty;
  foundations = empty;
  translation = none;
  treaties = [];
  countries = [];
}

pub data Action : Type 0 where
  loading_set error_set : Bool → Action
  incorporations_set corporations_set llcs_set foundations_set taxes_set translation_set :
      Rows → Action
  treaties_set country_set : Text → Rows → Action

unfoldable pub row_id : Fields → Text
row_id o = to_text (get (codes "id") o)

unfoldable pub row_code : Fields → Text
row_code o = to_text (get (codes "code") o)

-- `payload.map(…)` and `payload.reduce(…)`
unfoldable pub with_rows : (Fields → Text) → Rows → (Table → State) → Result State
unfolding of_list
with_rows key none f = throw type_error
with_rows key (some rows) f = ok (f (of_list key rows))

unfoldable pub incorporations_reducer : State → Action → Result State
unfolding with_rows row_id row_code insert
incorporations_reducer s (Action.loading_set b) = ok (record s { loading = b })
incorporations_reducer s (Action.error_set b) = ok (record s { error = b })
incorporations_reducer s (Action.incorporations_set rows) =
    with_rows row_id rows (λ t. record s { incorporations = t })
incorporations_reducer s (Action.corporations_set rows) =
    with_rows row_id rows (λ t. record s { corporations = t })
incorporations_reducer s (Action.llcs_set rows) = with_rows row_id rows (λ t. record s { llcs = t })
incorporations_reducer s (Action.foundations_set rows) =
    with_rows row_id rows (λ t. record s { foundations = t })
incorporations_reducer s (Action.taxes_set rows) =
    with_rows row_id rows (λ t. record s { taxes = t })
incorporations_reducer s (Action.translation_set rows) =
    with_rows row_id rows (λ t. record s { translation = some t })
incorporations_reducer s (Action.treaties_set country rows) =
    with_rows row_id rows (λ t. record s { treaties = insert country t s.treaties })
incorporations_reducer s (Action.country_set country rows) =
    with_rows row_code rows (λ t. record s { countries = insert country t s.countries })
