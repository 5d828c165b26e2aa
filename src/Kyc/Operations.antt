-- ===== src/Kyc/Operations.antt =====
-- The operations of src/common/kyc/index.js over sessions with relying parties. A timeout that is set
-- is pending until it fires or is cleared; the clock stands still during an operation.
pub mod Loading
pub mod Applications
use identity_wallet.Common.{
  ℕ, suc, Bool, true, false, not, ◌&&◌, ◌||◌, Option, none, some, List, [], ◌∷◌, ◌++◌,
  if◌then◌else◌, or_else, is_some, filter, find, contains, Result, ok, throw, type_error, error,
  Exception, ◌==◌, nat_eq, option_eq,
}
use identity_wallet.Common.Dict.{Dict, lookup, insert}
use identity_wallet.Schema.Text.{Text, codes, text_eq}
use identity_wallet.Schema.Value.{Fields}
use identity_wallet.Staking.Chain.{Run, pure, fail, ◌>>=◌}
use identity_wallet.Kyc.State.{
  State, Action, Config, Session, Template, Application, ErrorField, undefined_error, RelyingParty,
  CurrentApplication,
}
use identity_wallet.Kyc.Reducers.{reducer, update_relying_party, clear_current_application}
use identity_wallet.Kyc.Session.{KycAttribute, or_text, settled, decoded}
use identity_wallet.Kyc.Selectors.{Store, ServiceDetails, rp_details, relying_party_selector}

-- A session and its calls, over what they change.
pub record RelyingParties (W : Type 0) : Type 0 where
  pub create_session : Option Config → Run W Session
  pub is_active : Session → Bool
  pub establish : Session → Run W Session
  pub list_kyc_templates : Session → Run W (List Template)
  pub get_kyc_template : Session → Option Text → Run W Template
  pub list_kyc_applications : Session → Run W (List Application)
  pub create_kyc_application : Session → Text → List KycAttribute → Run W Application
  pub get_kyc_application : Session → Text → Run W Application
  pub update_kyc_application_payment : Session → Text → Text → Run W (Unit {0})

-- `routes` are those that were pushed, the last one first; `timeout` is what the variable
-- `hardwalletConfirmationTimeout` holds.
pub record World (W : Type 0) : Type 0 where
  pub services : W
  pub store : Store
  pub routes : List (Option Text)
  pub pending : List ℕ
  pub timeout : Option ℕ
  pub next_timeout : ℕ

module _ {W : Type 0} where
  abbrev pub reduced : World W → Result State → Result (Unit {0}) × World W
  reduced w (throw x) = (throw x, w)
  reduced w (ok s) = (ok tt, record w { store = record w.store { kyc = s } })

  abbrev pub dispatch : Action → Run (World W) (Unit {0})
  dispatch a w = reduced w (reducer w.store.kyc a)

  abbrev pub push : Option Text → Run (World W) (Unit {0})
  push route w = (ok tt, record w { routes = route ∷ w.routes })

  abbrev pub on_services : {A : Type 0} → Result A × W → World W → Result A × World W
  on_services (r, d) w = (r, record w { services = d })

  abbrev pub calling : {A : Type 0} → Run W A → Run (World W) A
  calling m w = on_services (m w.services) w

  abbrev pub get_store : Run (World W) Store
  get_store w = (ok w.store, w)

  -- `try { … } catch (error) { … }`
  abbrev pub rescue :
      {A : Type 0} → (Exception → Run (World W) A) → Result A × World W → Result A × World W
  rescue handler (ok a, w) = (ok a, w)
  rescue handler (throw x, w) = handler x w

  abbrev pub attempt :
      {A : Type 0} → Run (World W) A → (Exception → Run (World W) A) → Run (World W) A
  attempt body handler w = rescue handler (body w)

  -- `hardwalletConfirmationTimeout = setTimeout(…)`
  unfoldable pub set_timeout : Run (World W) (Unit {0})
  set_timeout w = (
    ok tt,
    record w {
      pending = w.next_timeout ∷ w.pending;
      timeout = some w.next_timeout;
      next_timeout = suc w.next_timeout;
    },
  )

  -- `clearTimeout(hardwalletConfirmationTimeout)`
  unfoldable pub clear_timeout : Run (World W) (Unit {0})
  clear_timeout w =
      (ok tt, record w { pending = filter (λ t. not (some t == w.timeout)) w.pending })

-- The callback of `setTimeout`, once the timeout is due.
unfoldable pub fire_timeout : {W : Type 0} → ℕ → Run (World W) (Unit {0})
unfolding clear_timeout
fire_timeout t w =
    if contains w.pending t
    then (clear_timeout >>= λ cleared. push (some (codes "/main/hd-timeout")))
        (record w { pending = filter (λ u. not (u == t)) w.pending })
    else (ok tt, w)

-- A hardware wallet asks its owner to confirm.
abbrev pub is_hardware : Text → Bool
is_hardware t = t == codes "ledger" || t == codes "trezor"

-- `error.statusText` and `error.code`.
pub record ErrorTexts : Type 0 where
  pub status_text : Exception → Option Text
  pub code : Exception → Option Text

unfoldable pub hd_route : ErrorTexts → Exception → Text
hd_route texts x =
    if texts.status_text x == some (codes "CONDITIONS_OF_USE_NOT_SATISFIED")
    then codes "/main/hd-declined"
    else if texts.code x == some (codes "Failure_ActionCancelled")
    then codes "/main/hd-declined"
    else if texts.status_text x == some (codes "UNKNOWN_ERROR")
    then codes "/main/hd-unlock"
    else codes "/main/hd-error"

abbrev pub when : {W : Type 0} → Bool → Run W (Unit {0}) → Run W (Unit {0})
when b m = if b then m else pure tt

-- `updateRelyingParty` of what failed: all that is known of it is gone.
abbrev pub failed_party : Text → ℕ → RelyingParty
failed_party name now = record {
  name = name;
  description = none;
  templates = none;
  applications = none;
  session = none;
  authenticated = none;
  last_updated = now;
  error = undefined_error;
}

module _ {W : Type 0} (parties : RelyingParties W) (texts : ErrorTexts) (instance_url : Text)
    (now : ℕ) where
  open parties use {
    create_session, establish, list_kyc_templates, get_kyc_template, list_kyc_applications,
  }

  unfoldable pub establish_failed : Text → Exception → Run (World W) Session
  unfolding clear_timeout hd_route
  establish_failed wallet_type x = do
    done ←
        (if is_hardware wallet_type
          then (clear_timeout >>= λ cleared. push (some (hd_route texts x)))
          else push (some (codes "/main/auth-error")))
    fail x

  unfoldable pub get_session : Option Config → Bool → Text → Run (World W) Session
  unfolding establish_failed set_timeout
  get_session config authenticate wallet_type = do
    session ← calling (create_session config)
    if authenticate
        then attempt
            (do
              timed ←
                  when (is_hardware wallet_type)
                    (set_timeout >>= λ set. push (some (codes "/main/hd-timer")))
              calling (establish session))
            (establish_failed wallet_type)
        else pure session

  unfoldable pub load_template : Session → Template → Run W Template
  load_template session listed = do
    let id = or_text listed.id listed.template_id
    t ← get_kyc_template session id
    pure (record t { id = id })

  unfoldable pub load_templates : Session → List Template → Run W (List Template)
  unfolding load_template
  load_templates session [] = pure []
  load_templates session (t ∷ ts) = do
    x ← load_template session t
    xs ← load_templates session ts
    pure (x ∷ xs)

  module _ (name : Text) (authenticate : Bool) where
    unfoldable pub load_party : ServiceDetails → Run (World W) (Unit {0})
    unfolding get_session load_templates
    load_party rp = do
      store ← get_store
      session ← get_session rp.relying_party_config authenticate store.wallet_type
      listed ← calling (list_kyc_templates session)
      templates ← calling (load_templates session listed)
      applications ← (if authenticate then calling (list_kyc_applications session) else pure [])
      dispatch (
          update_relying_party
            (record {
              name = name;
              description = rp.description;
              templates = some templates;
              applications = some applications;
              session = some session;
              authenticated = some authenticate;
              last_updated = now;
              error = undefined_error;
            })
            none)

    unfoldable pub after_load : Option Text → Text → Run (World W) (Unit {0})
    unfolding clear_timeout
    after_load none wallet_type = pure tt
    after_load (some route) wallet_type =
        when authenticate
          (when (is_hardware wallet_type) clear_timeout >>= λ cleared. push (some route))

    unfoldable pub load_named_party : Option Text → Option Text → Run (World W) (Unit {0})
    unfolding load_party after_load
    load_named_party after_auth_route cancel_route = do
      store ← get_store
      rp ← settled (rp_details instance_url store.exchanges name)
      attempt
          (do
            routed ← dispatch (Action.cancel_route_set cancel_route)
            loaded ← load_party rp
            after_load after_auth_route store.wallet_type)
          (λ x. dispatch (update_relying_party (failed_party name now) (some x)))

    -- No name, nothing to load.
    unfoldable pub load_relying_party_operation :
        Option Text → Option Text → Run (World W) (Unit {0})
    unfolding load_named_party
    load_relying_party_operation after_auth_route cancel_route =
        if name == [] then pure tt else load_named_party after_auth_route cancel_route
