-- ===== src/Incorporations/Operations.antt =====
-- src/common/incorporations/operations.js, over an interface for the service that fetches the tables. An
-- exception of a reducer is one of the dispatch.
pub mod Outcome
use identity_wallet.Common.{
  Bool, true, false, Option, none, some, List, [], ◌∷◌, Result, ok, throw, Exception,
}
use identity_wallet.Schema.Text.{Text}
use identity_wallet.Schema.Value.{Fields}
use identity_wallet.Staking.Chain.{Run, pure, ◌>>=◌}
use identity_wallet.Incorporations.State.{State, Rows, Action, incorporations_reducer}

pub record Tables : Type 0 where
  pub incorporations : Rows
  pub corporations : Rows
  pub llcs : Rows
  pub foundations : Rows
  pub taxes : Rows
  pub translation : Rows

-- The rows for a country, with the code of the country.
pub record ForCountry : Type 0 where
  pub country_code : Text
  pub rows : Rows

pub record Services (W : Type 0) : Type 0 where
  pub load_incorporations : Run W Tables
  pub load_treaties_data : Text → Run W ForCountry
  pub load_country_info : Text → Run W ForCountry

pub record World (W : Type 0) : Type 0 where
  pub services : W
  pub state : State

module _ {W : Type 0} where
  abbrev reduced : Result State → Run (World W) (Unit {0})
  reduced (ok s) w = (ok tt, record w { state = s })
  reduced (throw x) w = (throw x, w)

  abbrev pub dispatch : Action → Run (World W) (Unit {0})
  dispatch a w = reduced (incorporations_reducer w.state a) w

  abbrev pub on_services : {A : Type 0} → Result A × W → World W → Result A × World W
  on_services (r, d) w = (r, record w { services = d })

  abbrev pub calling : {A : Type 0} → Run W A → Run (World W) A
  calling m w = on_services (m w.services) w

  -- `try { … } catch (error) { set the error } finally { stop loading }`
  abbrev pub concluded : Result (Unit {0}) × World W → Result (Unit {0}) × World W
  unfolding incorporations_reducer
  concluded (ok u, w) = dispatch (Action.loading_set false) w
  concluded (throw x, w) =
      (do failed ← dispatch (Action.error_set true); dispatch (Action.loading_set false)) w

  unfoldable pub loading : Run (World W) (Unit {0}) → Run (World W) (Unit {0})
  unfolding incorporations_reducer concluded
  loading body = do
    marked ← dispatch (Action.loading_set true)
    cleared ← dispatch (Action.error_set false)
    (λ w. concluded (body w))

module _ {W : Type 0} (services : Services W) where
  unfoldable pub store_tables : Tables → Run (World W) (Unit {0})
  unfolding incorporations_reducer
  store_tables d = do
    a ← dispatch (Action.incorporations_set d.incorporations)
    b ← dispatch (Action.corporations_set d.corporations)
    c ← dispatch (Action.llcs_set d.llcs)
    e ← dispatch (Action.foundations_set d.foundations)
    f ← dispatch (Action.taxes_set d.taxes)
    dispatch (Action.translation_set d.translation)

  unfoldable pub load_incorporations_operation : Run (World W) (Unit {0})
  unfolding loading store_tables
  load_incorporations_operation =
      loading (do d ← calling services.load_incorporations; store_tables d)

  unfoldable pub load_incorporations_tax_treaties_operation : Text → Run (World W) (Unit {0})
  unfolding loading incorporations_reducer
  load_incorporations_tax_treaties_operation country_code = loading (do
    d ← calling (services.load_treaties_data country_code)
    dispatch (Action.treaties_set d.country_code d.rows))

  unfoldable pub load_incorporations_country_operation : Text → Run (World W) (Unit {0})
  unfolding loading incorporations_reducer
  load_incorporations_country_operation country_code = loading (do
    d ← calling (services.load_country_info country_code)
    dispatch (Action.country_set d.country_code d.rows))
