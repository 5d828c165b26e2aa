-- ===== src/Login/Replies.antt =====
-- Every request for attributes, a login or a signup is answered once, and refused while the wallet is
-- locked.
use identity_wallet.Common.{
  ◌≡◌, refl, ap, sym, subst, ◌∙◌, ◌⊎◌, inl, inr, Option, none, some, List, [], or_else, Result, ok,
  throw, option_eq,
}
use identity_wallet.Schema.Text.{Text, codes, text_eq}
use identity_wallet.Schema.Value.{Value}
use identity_wallet.Staking.Chain.{Run, continue}
use identity_wallet.Login.State.{
  Request, Payload, Body, Services, World, Wallet, LoginAttempt, SentAttribute,
}
use identity_wallet.Login.Connection.{get_identity, send, reply, calling, settle, ◌on_settled◌}
use identity_wallet.Login.Connection.{lift, present, for_payload, for_identity}
use identity_wallet.Login.Sessions.{
  not_authorized, answer_token, answer_auth, answer_created, answer_signup, log_attempt, auth_resp,
  store_for, format_and_store, format_login_attempt, format_action_log, req_auth, try_signup,
  req_signup,
}
use identity_wallet.Login.Requests.{
  try_attributes, req_attributes, answer_attributes, handle_type, handle_request,
}
use identity_wallet.Login.Attributes.{requested_ids, attributes_to_send, attributes_to_sign_up}

module _ {D I : Type 0} where
  -- The computation leaves the connection as it is.
  abbrev Keeps : {A : Type 0} → Run (World D I) A → Type 0
  Keeps m = (w : World D I) → (m w).1.connection ≡ w.connection

  continue-Keeps :
      {A B : Type 0} (f : A → Run (World D I) B) (r : Result A × World D I)
      → ((a : A) → Keeps (f a))
      → (continue f r).1.connection ≡ r.1.connection
  continue-Keeps f (ok a, w) h = h a w
  continue-Keeps f (throw x, w) h = refl

  present-Keeps : {A : Type 0} (o : Option A) → Keeps (present o)
  present-Keeps none w = refl
  present-Keeps (some a) w = refl

  -- The request is answered by one reply, with this body.
  abbrev pub Answers : Request → World D I → Body → Result (Unit {0}) × World D I → Type 0
  Answers msg w body (r, w') = (r ≡ ok tt) × (w'.connection ≡ send body msg w.connection)

module _ {D I S : Type 0} (services : Services D I S) where
  store_for-Keeps :
      (found : Option Wallet) (attempt : LoginAttempt) → Keeps (store_for services found attempt)
  store_for-Keeps none attempt w = refl
  store_for-Keeps (some wallet) attempt w =
      continue-Keeps
        (λ added. calling (services.action_logs_add (format_action_log services wallet attempt)))
        (calling (services.add_login_attempt wallet attempt) w) (λ added w'. refl)

  log_attempt-Keeps : (body : Body) (msg : Request) → Keeps (log_attempt services body msg)
  unfolding log_attempt
  log_attempt-Keeps body msg w =
      continue-Keeps (format_and_store services body msg)
        (calling
          (services.find_by_public_key (elim msg.payload [ none ↦ none | some p ↦ p.public_key ]))
          w)
        (λ found w'.
          continue-Keeps (store_for services found)
            (lift (format_login_attempt services msg body) w') (store_for-Keeps found))

  auth_resp-Answers :
      (body : Body) (msg : Request) (w w0 : World D I)
      → w.connection ≡ w0.connection
      → Answers msg w0 body (auth_resp services body msg w)
  unfolding auth_resp
  auth_resp-Answers body msg w w0 same =
      settled (log_attempt services body msg w) (log_attempt-Keeps body msg w ∙ same)
    where
      settled :
          (r : Result (Unit {0}) × World D I)
          → r.1.connection ≡ w0.connection
          → Answers msg w0 body (settle (λ x. reply body msg) r)
      settled (x, w') e = (refl, ap (send body msg) e)

  try_attributes-Keeps :
      (payload : Payload) (identity : I) → Keeps (try_attributes services payload identity)
  unfolding try_attributes
  try_attributes-Keeps payload identity w =
      continue-Keeps _ (present payload.requested_attributes w) (λ requested w'.
        continue-Keeps _ (lift (requested_ids requested) w') (λ ids w''.
          continue-Keeps (λ fetched. lift (attributes_to_send services fetched))
            (calling (services.get_attributes_by_types identity ids) w'') (λ fetched v. refl)))
      ∙ present-Keeps payload.requested_attributes w

  try_signup-Keeps : (payload : Payload) (session : S) → Keeps (try_signup services payload session)
  unfolding try_signup
  try_signup-Keeps payload session w =
      continue-Keeps _ (lift (attributes_to_sign_up services (or_else payload.attributes [])) w)
        (λ ats w'. refl)

  -- There is a body with which the request is answered.
  abbrev pub Answered : Request → World D I → Result (Unit {0}) × World D I → Type 0
  Answered msg w r = (body : Body) × Answers msg w body r

  settle-Answered :
      {A : Type 0} (msg : Request) (w0 : World D I) (f : Result A → Run (World D I) (Unit {0}))
      (r : Result A × World D I)
      → r.1.connection ≡ w0.connection
      → ((x : Result A) (w : World D I) → w.connection ≡ w0.connection → Answered msg w0 (f x w))
      → Answered msg w0 (settle f r)
  settle-Answered msg w0 f (x, w) e h = h x w e

  -- The request is answered; while the wallet is locked, with a refusal.
  abbrev pub Guarded : Request → Payload → World D I → Result (Unit {0}) × World D I → Type 0
  Guarded msg p w r =
      (body : Body) × Answers msg w body r
      × (get_identity p.public_key w.connection ≡ none → (m : Text) × (body ≡ not_authorized m))

  answer_attributes-Answered :
      (p : Payload) (msg : Request) (w0 : World D I) (x : Result (List SentAttribute))
      (w : World D I)
      → w.connection ≡ w0.connection
      → Answered msg w0 (answer_attributes services p msg x w)
  answer_attributes-Answered p msg w0 (ok sent) w e = (_, (refl, ap (send _ msg) e))
  answer_attributes-Answered p msg w0 (throw x) w e = (_, (refl, ap (send _ msg) e))

  answer_auth-Answered :
      (msg : Request) (w0 : World D I) (x : Result S) (w : World D I)
      → w.connection ≡ w0.connection
      → Answered msg w0 (answer_auth services msg x w)
  answer_auth-Answered msg w0 (throw x) w e = (_, auth_resp-Answers _ msg w w0 e)
  answer_auth-Answered msg w0 (ok session) w e =
      settle-Answered msg w0 (answer_token services msg)
        (calling (services.get_user_login_payload session) w) e (λ x w' e'. answered x w' e')
    where
      answered :
          (x : Result Value) (w' : World D I)
          → w'.connection ≡ w0.connection
          → Answered msg w0 (answer_token services msg x w')
      answered (ok token) w' e' = (_, auth_resp-Answers _ msg w' w0 e')
      answered (throw x) w' e' = (_, auth_resp-Answers _ msg w' w0 e')

  answer_signup-Answered :
      (p : Payload) (msg : Request) (w0 : World D I) (x : Result S) (w : World D I)
      → w.connection ≡ w0.connection
      → Answered msg w0 (answer_signup services p msg x w)
  answer_signup-Answered p msg w0 (throw x) w e = (_, auth_resp-Answers _ msg w w0 e)
  answer_signup-Answered p msg w0 (ok session) w e =
      settle-Answered msg w0 (answer_created services msg) (try_signup services p session w)
        (try_signup-Keeps p session w ∙ e) (λ x w' e'. answered x w' e')
    where
      answered :
          (x : Result (Unit {0})) (w' : World D I)
          → w'.connection ≡ w0.connection
          → Answered msg w0 (answer_created services msg x w')
      answered (ok u) w' e' = (_, auth_resp-Answers _ msg w' w0 e')
      answered (throw x) w' e' = (_, auth_resp-Answers _ msg w' w0 e')

  module _ (msg : Request) (p : Payload) (w : World D I) (has : msg.payload ≡ some p) where
    payload-Guarded :
        (f : Payload → Run (World D I) (Unit {0}))
        → Guarded msg p w (f p w)
        → Guarded msg p w (for_payload f msg.payload w)
    payload-Guarded f h = subst (λ o. Guarded msg p w (for_payload f o w)) (sym has) h

    identity-Guarded :
        (refuse : Run (World D I) (Unit {0})) (m : Text) (f : I → Run (World D I) (Unit {0}))
        → Answers msg w (not_authorized m) (refuse w)
        → ((i : I) → Answered msg w (f i w))
        → (o : Option I) → get_identity p.public_key w.connection ≡ o
        → Guarded msg p w (for_identity refuse f o w)
    identity-Guarded refuse m f h k none e = (not_authorized m, h, λ locked. (m, refl))
    identity-Guarded refuse m f h k (some i) e = let (body, a) = k i in (body, a, λ locked. cc)

    pub req_attributes-Guarded : Guarded msg p w (req_attributes services msg w)
    unfolding req_attributes
    req_attributes-Guarded = payload-Guarded _ (
        identity-Guarded
          (reply (not_authorized (codes "Wallet is locked, cannot request attributes")) msg)
          (codes "Wallet is locked, cannot request attributes")
          (λ i. try_attributes services p i on_settled answer_attributes services p msg)
          (refl, refl)
          (λ i.
            settle-Answered msg w (answer_attributes services p msg) (try_attributes services p i w)
              (try_attributes-Keeps p i w) (answer_attributes-Answered p msg w))
          (get_identity p.public_key w.connection) refl)

    pub req_auth-Guarded : Guarded msg p w (req_auth services msg w)
    unfolding req_auth
    req_auth-Guarded = payload-Guarded _ (
        identity-Guarded
          (auth_resp services
            (not_authorized (codes "Wallet is locked, cannot auth with relying party")) msg)
          (codes "Wallet is locked, cannot auth with relying party")
          (λ i. calling (services.establish p.config i) on_settled answer_auth services msg)
          (auth_resp-Answers _ msg w w refl)
          (λ i.
            settle-Answered msg w (answer_auth services msg)
              (calling (services.establish p.config i) w) refl (answer_auth-Answered msg w))
          (get_identity p.public_key w.connection) refl)

    pub req_signup-Guarded : Guarded msg p w (req_signup services msg w)
    unfolding req_signup
    req_signup-Guarded = payload-Guarded _ (
        identity-Guarded
          (auth_resp services
            (not_authorized (codes "Wallet is locked, cannot signup with relying party")) msg)
          (codes "Wallet is locked, cannot signup with relying party")
          (λ i. calling (services.establish p.config i) on_settled answer_signup services p msg)
          (auth_resp-Answers _ msg w w refl)
          (λ i.
            settle-Answered msg w (answer_signup services p msg)
              (calling (services.establish p.config i) w) refl (answer_signup-Answered p msg w))
          (get_identity p.public_key w.connection) refl)

    abbrev pub IsGuardedType : Option Text → Type 0
    IsGuardedType type =
        (type ≡ some (codes "attributes"))
        ⊎ (type ≡ some (codes "auth"))
        ⊎ (type ≡ some (codes "signup"))

    -- A request for attributes, a login or a signup that has a payload is answered by exactly one
    -- reply, whatever the services throw; while the wallet that it names is not unlocked on the
    -- connection, the reply is a refusal.
    pub handle_request-Guarded :
        IsGuardedType msg.type → Guarded msg p w (handle_request services msg w)
    unfolding handle_request handle_type option_eq text_eq
    handle_request-Guarded (inl e) =
        subst (λ t. Guarded msg p w (handle_type services t msg w)) (sym e) req_attributes-Guarded
    handle_request-Guarded (inr (inl e)) =
        subst (λ t. Guarded msg p w (handle_type services t msg w)) (sym e) req_auth-Guarded
    handle_request-Guarded (inr (inr e)) =
        subst (λ t. Guarded msg p w (handle_type services t msg w)) (sym e) req_signup-Guarded
