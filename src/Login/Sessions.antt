-- ===== src/Login/Sessions.antt =====
-- Logins and signups with a relying party, and the log of attempts.
use identity_wallet.Common.{
  true, false, Option, none, some, [], ◌∷◌, ◌++◌, if◌then◌else◌, or_else, is_some, Result, ok,
  throw, Exception, type_error, length, ltb, option_eq,
}
use identity_wallet.Schema.Text.{Text, codes, text_eq}
use identity_wallet.Schema.Value.{Value}
use identity_wallet.Staking.Chain.{Run, ◌>>=◌}
use identity_wallet.Login.State.{
  Payload, Request, Body, login, signed_up, problem, Wallet, LoginAttempt, ActionLog, Services,
  World,
}
use identity_wallet.Login.Connection.{
  get_identity, reply, calling, ◌on_settled◌, lift, present, for_payload, for_identity,
}
use identity_wallet.Login.Attributes.{attributes_to_sign_up}

abbrev pub not_authorized : Text → Body
not_authorized message = problem (codes "not_authorized") message

module _ {D I S : Type 0} (services : Services D I S) where
  abbrev pub told : Exception → Text
  told x = services.message_of x

  -- `resp.payload.code || 'unknown_error'` and so on; the codes of the replies are not empty.
  abbrev pub text_or : Text → Text → Text
  text_or [] d = d
  text_or (c ∷ s) d = c ∷ s

  unfoldable pub format_login_attempt : Request → Body → Result LoginAttempt
  format_login_attempt msg body = elim msg.payload [
    | none ↦ throw type_error
    | some payload ↦ elim payload.config [
      | none ↦ throw type_error
      | some config ↦ elim config.website [
        | none ↦ throw type_error
        | some website ↦
            let attempt : LoginAttempt = record {
              website_name = website.name;
              website_url = website.url;
              signup = ltb 0 (length (or_else payload.attributes []));
              success = true;
              error_code = none;
              error_message = none;
            } in
            elim body [
              | problem code message ↦ ok (record attempt {
                success = false;
                error_code = some (text_or code (codes "unknown_error"));
                error_message = some (text_or message (codes "Unknown Error"));
              })
              | _ ↦ ok attempt
            ]
      ]
    ]
  ]

  unfoldable pub format_action_log : Wallet → LoginAttempt → ActionLog
  format_action_log wallet attempt =
      let title =
        (if attempt.signup then codes "Signup to " else codes "Login to ") ++ attempt.website_url in
      record {
        wallet_id = wallet.id;
        title = title;
        content =
            title
            ++ (if is_some attempt.error_code
                then codes " has failed"
                else codes " was successful");
      }

  -- What `authResp` logs of an attempt.
  abbrev pub store_attempt : LoginAttempt → Wallet → Run (World D I) (Unit {0})
  store_attempt attempt wallet = do
    added ← calling (services.add_login_attempt wallet attempt)
    calling (services.action_logs_add (format_action_log wallet attempt))

  abbrev pub store_for : Option Wallet → LoginAttempt → Run (World D I) (Unit {0})
  store_for found attempt = present found >>= store_attempt attempt

  abbrev pub format_and_store : Body → Request → Option Wallet → Run (World D I) (Unit {0})
  format_and_store body msg found = lift (format_login_attempt msg body) >>= store_for found

  -- The `try` of `authResp`. Without a payload there is no key to find a wallet by.
  unfoldable pub log_attempt : Body → Request → Run (World D I) (Unit {0})
  unfolding format_login_attempt format_action_log
  log_attempt body msg =
      calling
        (services.find_by_public_key (elim msg.payload [ none ↦ none | some p ↦ p.public_key ]))
      >>= format_and_store body msg

  unfoldable pub auth_resp : Body → Request → Run (World D I) (Unit {0})
  unfolding log_attempt
  auth_resp body msg = log_attempt body msg on_settled λ r. reply body msg

  abbrev pub session_problem : Exception → Body
  session_problem x = problem (codes "session_establish") (told x)

  abbrev pub answer_token : Request → Result Value → Run (World D I) (Unit {0})
  answer_token msg (ok token) = auth_resp (login token) msg
  answer_token msg (throw x) =
      auth_resp (problem (codes "token_error") (codes "User authentication failed")) msg

  abbrev pub answer_auth : Request → Result S → Run (World D I) (Unit {0})
  answer_auth msg (throw x) = auth_resp (session_problem x) msg
  answer_auth msg (ok session) =
      calling (services.get_user_login_payload session) on_settled answer_token msg

  unfoldable pub req_auth : Request → Run (World D I) (Unit {0})
  unfolding auth_resp
  req_auth msg w =
      for_payload
        (λ payload.
          for_identity
            (auth_resp (not_authorized (codes "Wallet is locked, cannot auth with relying party"))
              msg)
            (λ identity.
              calling (services.establish payload.config identity) on_settled answer_auth msg)
            (get_identity payload.public_key w.connection))
        msg.payload w

  -- The `try` of `reqSignup`.
  unfoldable pub try_signup : Payload → S → Run (World D I) (Unit {0})
  unfolding attributes_to_sign_up
  try_signup payload session = do
    rp_attributes ← lift (attributes_to_sign_up services (or_else payload.attributes []))
    calling (services.create_user session rp_attributes)

  abbrev pub answer_created : Request → Result (Unit {0}) → Run (World D I) (Unit {0})
  answer_created msg (ok u) = auth_resp signed_up msg
  answer_created msg (throw x) = auth_resp (problem (codes "user_create_error") (told x)) msg

  abbrev pub answer_signup : Payload → Request → Result S → Run (World D I) (Unit {0})
  answer_signup payload msg (throw x) = auth_resp (session_problem x) msg
  answer_signup payload msg (ok session) = try_signup payload session on_settled answer_created msg

  unfoldable pub req_signup : Request → Run (World D I) (Unit {0})
  unfolding auth_resp try_signup
  req_signup msg w =
      for_payload
        (λ payload.
          for_identity
            (auth_resp (not_authorized (codes "Wallet is locked, cannot signup with relying party"))
              msg)
            (λ identity.
              calling (services.establish payload.config identity)
              on_settled answer_signup payload msg)
            (get_identity payload.public_key w.connection))
        msg.payload w
