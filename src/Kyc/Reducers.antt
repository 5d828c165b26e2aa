-- ===== src/Kyc/Reducers.antt =====
-- The reducers of src/common/kyc/index.js and their dispatch. The action creators of it are here too,
-- where they do more than fill in a payload.
pub mod Consistency
use identity_wallet.Common.{
  ℕ, Bool, Option, none, some, List, [], ◌∷◌, ◌++◌, if◌then◌else◌, is_some, Result, ok, throw,
  type_error, ◌>>=◌, Exception,
}
use identity_wallet.Common.Dict.{lookup, insert}
use identity_wallet.Schema.Text.{Text, text_eq}
use identity_wallet.Kyc.State.{
  State, Action, Application, RelyingParty, ErrorField, undefined_error, is_true, message,
  CurrentApplication, no_application,
}

-- `kycActions.updateRelyingParty`
unfoldable pub update_relying_party : RelyingParty → Option Exception → Action
update_relying_party rp none = Action.rp_update (some rp) undefined_error
update_relying_party rp (some x) = Action.rp_update (some (record rp { error = message x })) is_true

-- `kycActions.clearCurrentApplication`
abbrev pub clear_current_application : Action
clear_current_application = Action.current_set none

unfoldable pub update_relying_party_reducer : Option RelyingParty → ErrorField → State → State
update_relying_party_reducer none error s = record s {
  relying_parties_by_name = [];
  relying_parties = [];
}
update_relying_party_reducer (some rp) error s = record s {
  relying_parties =
      if is_some (lookup rp.name s.relying_parties_by_name)
      then s.relying_parties
      else s.relying_parties ++ rp.name ∷ [];
  relying_parties_by_name = insert rp.name (record rp { error = error }) s.relying_parties_by_name;
}

-- A relying party that is not there is `undefined`, and `[...undefined]` throws.
unfoldable pub add_kyc_application_reducer : Text → Application → State → Result State
add_kyc_application_reducer name application s = elim (lookup name s.relying_parties_by_name) [
  | none ↦ throw type_error
  | some rp ↦ elim rp.applications [
    | none ↦ throw type_error
    | some applications ↦ ok (record s {
      relying_parties_by_name =
          insert rp.name (record rp { applications = some (applications ++ application ∷ []) })
            s.relying_parties_by_name;
    })
  ]
]

unfoldable pub set_current_application_reducer : Option CurrentApplication → State → State
set_current_application_reducer none s = record s { current_application = some no_application }
set_current_application_reducer (some a) s = record s { current_application = some a }

unfoldable pub clear_current_application_reducer : State → State
clear_current_application_reducer s = record s { current_application = none }

unfoldable pub set_cancel_route : Option Text → State → State
set_cancel_route route s = record s { cancel_route = route }

unfoldable pub reducer : State → Action → Result State
reducer s (Action.rp_update rp error) = ok (update_relying_party_reducer rp error s)
reducer s (Action.application_add name a) = add_kyc_application_reducer name a s
reducer s (Action.current_set a) = ok (set_current_application_reducer a s)
reducer s Action.current_clear = ok (clear_current_application_reducer s)
reducer s (Action.cancel_route_set route) = ok (set_cancel_route route s)
