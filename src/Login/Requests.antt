-- ===== src/Login/Requests.antt =====
-- The handlers of `LWSService`. A handler that throws sends nothing: `handleMessage` does not await
-- it.
use identity_wallet.Common.{
  Bool, true, false, ◌&&◌, Option, none, some, List, [], ◌∷◌, map, if◌then◌else◌, Result, ok, throw,
  type_error, contains, ◌==◌, option_eq,
}
use identity_wallet.Schema.Text.{Text, codes, text_eq}
use identity_wallet.Staking.Chain.{Run, pure, fail, ◌>>=◌}
use identity_wallet.Login.State.{
  Website, Payload, Request, WalletInfo, SentAttribute, wallets, unlock, attributes, problem,
  unknown_request, Wallet, Services, World, Connection,
}
use identity_wallet.Login.Connection.{
  add_identity, get_identity, reply, calling, ◌on_settled◌, lift, present, for_payload,
  for_identity,
}
use identity_wallet.Login.Attributes.{requested_ids, attributes_to_send}
use identity_wallet.Login.Sessions.{told, not_authorized, req_auth, req_signup}

module _ {D I S : Type 0} (services : Services D I S) where
  -- The info of a wallet that is unlocked, for a website.
  abbrev pub unlocked_info : Option Website → Wallet → I → Run (World D I) WalletInfo
  unlocked_info website wallet identity = do
    site ← present website
    up ← calling (services.has_signed_up_to wallet site.url)
    pure (record {
      public_key = wallet.public_key;
      unlocked = true;
      profile = wallet.profile;
      signed_up = up;
    })

  abbrev pub locked_info : Wallet → WalletInfo
  locked_info wallet = record {
    public_key = wallet.public_key;
    unlocked = false;
    profile = wallet.profile;
    signed_up = false;
  }

  -- The website is read only if the wallet is unlocked.
  unfoldable pub wallet_info : Option Website → Wallet → Run (World D I) WalletInfo
  wallet_info website wallet w =
      for_identity (pure (locked_info wallet)) (unlocked_info website wallet)
        (get_identity (some wallet.public_key) w.connection) w

  unfoldable pub wallet_infos : Option Website → List Wallet → Run (World D I) (List WalletInfo)
  unfolding wallet_info
  wallet_infos website [] = pure []
  wallet_infos website (x ∷ xs) = do
    info ← wallet_info website x
    infos ← wallet_infos website xs
    pure (info ∷ infos)

  unfoldable pub req_wallets : Request → Run (World D I) (Unit {0})
  unfolding wallet_infos
  req_wallets msg = do
    payload ← present msg.payload
    config ← present payload.config
    found ← calling services.find_all
    infos ← wallet_infos config.website found
    reply (wallets infos) msg

  abbrev pub added_to : Option Text → I → Connection I → Connection I
  added_to none identity c = c
  added_to (some k) identity c = add_identity k identity c

  -- `config.website.url`, and whether the wallet has signed up there
  abbrev pub ask_signed_up : Payload → Wallet → Run (World D I) Bool
  ask_signed_up payload wallet = do
    config ← present payload.config
    website ← present config.website
    calling (services.has_signed_up_to wallet website.url)

  abbrev pub add_and_ask : Payload → Wallet → I → Run (World D I) Bool
  add_and_ask payload wallet identity w =
      ask_signed_up payload wallet
        (record w { connection = added_to payload.public_key identity w.connection })

  -- The `try` of `reqUnlock`: the identity is added before the website is asked for.
  unfoldable pub try_unlock : Payload → Wallet → Run (World D I) Bool
  try_unlock payload wallet =
      calling (services.unlock_identity wallet payload.password) >>= add_and_ask payload wallet

  abbrev pub answer_unlock : Payload → Wallet → Request → Result Bool → Run (World D I) (Unit {0})
  answer_unlock payload wallet msg (ok up) =
      reply (unlock payload.public_key true wallet.profile (some up)) msg
  answer_unlock payload wallet msg (throw x) =
      reply (unlock payload.public_key false wallet.profile none) msg

  abbrev pub unlock_found : Payload → Request → Option Wallet → Run (World D I) (Unit {0})
  unlock_found payload msg none = fail type_error
  unlock_found payload msg (some wallet) =
      try_unlock payload wallet on_settled answer_unlock payload wallet msg

  unfoldable pub req_unlock : Request → Run (World D I) (Unit {0})
  unfolding try_unlock
  req_unlock msg =
      for_payload
        (λ payload.
          calling (services.find_by_public_key payload.public_key) >>= unlock_found payload msg)
        msg.payload

  -- The `try` of `reqAttributes`.
  unfoldable pub try_attributes : Payload → I → Run (World D I) (List SentAttribute)
  unfolding requested_ids attributes_to_send
  try_attributes payload identity = do
    requested ← present payload.requested_attributes
    ids ← lift (requested_ids requested)
    fetched ← calling (services.get_attributes_by_types identity ids)
    lift (attributes_to_send services fetched)

  abbrev pub answer_attributes :
      Payload → Request → Result (List SentAttribute) → Run (World D I) (Unit {0})
  answer_attributes payload msg (ok sent) = reply (attributes payload.public_key sent) msg
  answer_attributes payload msg (throw x) =
      reply (problem (codes "attributes_error") (told services x)) msg

  unfoldable pub req_attributes : Request → Run (World D I) (Unit {0})
  unfolding try_attributes
  req_attributes msg w =
      for_payload
        (λ payload.
          for_identity
            (reply (not_authorized (codes "Wallet is locked, cannot request attributes")) msg)
            (λ identity. try_attributes payload identity on_settled answer_attributes payload msg)
            (get_identity payload.public_key w.connection))
        msg.payload w

  unfoldable pub req_unknown : Request → Run (World D I) (Unit {0})
  req_unknown msg = reply unknown_request msg

  -- `this.reqVersion` is not declared, so that its call throws.
  unfoldable pub handle_type : Option Text → Request → Run (World D I) (Unit {0})
  unfolding req_wallets req_unlock req_attributes req_auth req_signup req_unknown
  handle_type type msg =
      if type == some (codes "wallets")
      then req_wallets msg
      else if type == some (codes "unlock")
      then req_unlock msg
      else if type == some (codes "attributes")
      then req_attributes msg
      else if type == some (codes "auth")
      then req_auth services msg
      else if type == some (codes "signup")
      then req_signup services msg
      else if type == some (codes "version")
      then fail type_error
      else req_unknown msg

  unfoldable pub handle_request : Request → Run (World D I) (Unit {0})
  unfolding handle_type
  handle_request msg = handle_type msg.type msg

  -- `handleMessage`: a text that does not parse is answered as a message without type and id.
  unfoldable pub handle_message : (Text → Result Request) → Text → Run (World D I) (Unit {0})
  unfolding handle_request
  handle_message parse text w = elim (parse text) [
    | throw x ↦
        reply (problem (codes "invalid_message") (codes "Invalid Message"))
          (record { type = none; id = none; payload = none }) w
    | ok msg ↦ (ok tt, (handle_request msg w).1)
  ]

-- `verifyClient`, by the two lists.
unfoldable pub verify_client : List Text → List Text → Option Text → Option Text → Bool
verify_client ips origins ip origin =
    contains (map some ips) ip && contains (map some origins) origin
