-- ===== src/Login/Identities.antt =====
-- Which identities a connection holds: only unlocking adds one.
use identity_wallet.Common.{
  ◌≡◌, refl, subst, ◌⊎◌, inl, inr, Bool, Option, none, some, List, [], ◌∷◌, arith, Result, ok,
  throw, Option-cases, Bool-cases, ◌==◌, option_eq,
}
use identity_wallet.Common.Dict.{lookup-insert}
use identity_wallet.Schema.Text.{Text, codes, text_eq}
use identity_wallet.Staking.Chain.{pure, continue}
use identity_wallet.Login.State.{
  Website, Request, Payload, wallets, unknown_request, Wallet, Services, World, Connection,
}
use identity_wallet.Login.Connection.{add_identity, get_identity, calling, present, for_identity}
use identity_wallet.Login.Sessions.{req_auth, req_signup}
use identity_wallet.Login.Requests.{
  locked_info, unlocked_info, added_to, ask_signed_up, add_and_ask, answer_unlock, unlock_found,
  wallet_info, wallet_infos, req_wallets, try_unlock, req_unlock, req_attributes, req_unknown,
  handle_type, handle_request,
}
use identity_wallet.Login.Replies.{req_attributes-Guarded, req_auth-Guarded, req_signup-Guarded}
use identity_wallet.Login.Accounting.{
  Accounted, continue-Accounted, settle-Accounted, reply-Accounted, calling-Accounted,
  present-Accounted, Guarded-Accounted, payload-Accounted, no_payload,
}

module _ {D I S : Type 0} (services : Services D I S) (msg : Request) where
  wallet_info-Accounted :
      (website : Option Website) (wallet : Wallet) (w : World D I)
      → Accounted services msg w (wallet_info services website wallet w)
  unfolding wallet_info
  wallet_info-Accounted website wallet w =
      by_identity (get_identity (some wallet.public_key) w.connection)
    where
      by_identity :
          (o : Option I)
          → Accounted services msg w (
              for_identity
                (pure (locked_info services wallet))
                (unlocked_info services website wallet)
                o
                w)
      by_identity none = λ k i e. inl e
      by_identity (some identity) =
          continue-Accounted services msg w _ (present website w)
            (present-Accounted services msg website w)
            (λ site w'.
              continue-Accounted services msg w' _
                (calling (services.has_signed_up_to wallet site.url) w')
                (calling-Accounted services msg (services.has_signed_up_to wallet site.url) w')
                (λ up w'' k i e. inl e))

  wallet_infos-Accounted :
      (website : Option Website) (xs : List Wallet) (w : World D I)
      → Accounted services msg w (wallet_infos services website xs w)
  unfolding wallet_infos
  wallet_infos-Accounted website [] w = λ k i e. inl e
  wallet_infos-Accounted website (x ∷ xs) w =
      continue-Accounted services msg w _ (wallet_info services website x w)
        (wallet_info-Accounted website x w)
        (λ info w'.
          continue-Accounted services msg w' _ (wallet_infos services website xs w')
            (wallet_infos-Accounted website xs w') (λ infos w'' k i e. inl e))

  req_wallets-Accounted : (w : World D I) → Accounted services msg w (req_wallets services msg w)
  unfolding req_wallets
  req_wallets-Accounted w =
      continue-Accounted services msg w _ (present msg.payload w)
        (present-Accounted services msg msg.payload w)
        (λ payload w1.
          continue-Accounted services msg w1 _ (present payload.config w1)
            (present-Accounted services msg payload.config w1)
            (λ config w2.
              continue-Accounted services msg w2 _ (calling services.find_all w2)
                (calling-Accounted services msg services.find_all w2)
                (λ found w3.
                  continue-Accounted services msg w3 _
                    (wallet_infos services config.website found w3)
                    (wallet_infos-Accounted config.website found w3)
                    (λ infos w4. reply-Accounted services msg (wallets infos) w4))))

  ask_signed_up-Accounted :
      (p : Payload) (wallet : Wallet) (w : World D I)
      → Accounted services msg w (ask_signed_up services p wallet w)
  ask_signed_up-Accounted p wallet w =
      continue-Accounted services msg w _ (present p.config w)
        (present-Accounted services msg p.config w)
        (λ config w1.
          continue-Accounted services msg w1 _ (present config.website w1)
            (present-Accounted services msg config.website w1)
            (λ website w2.
              calling-Accounted services msg (services.has_signed_up_to wallet website.url) w2))

  get-added_to :
      (key : Option Text) (j : I) (c : Connection I) (k : Text) (i : I)
      → get_identity (some k) (added_to services key j c) ≡ some i
      → (get_identity (some k) c ≡ some i) ⊎ ((key ≡ some k) × (j ≡ i))
  unfolding get_identity add_identity
  get-added_to none j c k i e = inl e
  get-added_to (some k0) j c k i e = ground (arith, lookup-insert k k0 j c.identities)

  module _ (p : Payload) (has : msg.payload ≡ some p) where
    add_and_ask-Accounted :
        (wallet : Wallet) (w : World D I) (d d' : D) (j : I)
        → services.unlock_identity wallet p.password d ≡ (ok j, d')
        → Accounted services msg w (add_and_ask services p wallet j w)
    add_and_ask-Accounted wallet w d d' j opened k i e =
        elim (ask_signed_up-Accounted p wallet
          (record w { connection = added_to services p.public_key j w.connection }) k i e) [
            | inr new ↦ inr new
            | inl there ↦ elim (get-added_to p.public_key j w.connection k i there) [
              | inl old ↦ inl old
              | inr (named, same) ↦ inr (
                p,
                has,
                named,
                wallet,
                d,
                d',
                subst (λ x. services.unlock_identity wallet p.password d ≡ (ok x, d')) same opened,
              )
            ]
          ]

    try_unlock-Accounted :
        (wallet : Wallet) (w : World D I)
        → Accounted services msg w (try_unlock services p wallet w)
    unfolding try_unlock
    try_unlock-Accounted wallet w =
        opened (services.unlock_identity wallet p.password w.services) refl
      where
        opened :
            (r : Result I × D)
            → services.unlock_identity wallet p.password w.services ≡ r
            → Accounted services msg w
                (continue (add_and_ask services p wallet) (r.0, record w { services = r.1 }))
        opened (throw x, d) e = λ k i there. inl there
        opened (ok j, d) e =
            add_and_ask-Accounted wallet (record w { services = d }) w.services d j e

    unlock_found-Accounted :
        (found : Option Wallet) (w : World D I)
        → Accounted services msg w (unlock_found services p msg found w)
    unlock_found-Accounted none w = λ k i e. inl e
    unlock_found-Accounted (some wallet) w =
        settle-Accounted services msg w (answer_unlock services p wallet msg)
          (try_unlock services p wallet w) (try_unlock-Accounted wallet w) answered
      where
        answered :
            (x : Result Bool) (w' : World D I)
            → Accounted services msg w' (answer_unlock services p wallet msg x w')
        answered (ok up) w' = reply-Accounted services msg _ w'
        answered (throw x) w' = reply-Accounted services msg _ w'

  module _ (w : World D I) where
    req_unlock-Accounted : Accounted services msg w (req_unlock services msg w)
    unfolding req_unlock
    req_unlock-Accounted = payload-Accounted services msg _ w (λ p has.
        continue-Accounted services msg w (unlock_found services p msg)
          (calling (services.find_by_public_key p.public_key) w)
          (calling-Accounted services msg (services.find_by_public_key p.public_key) w)
          (unlock_found-Accounted p has))

    req_attributes-Accounted : Accounted services msg w (req_attributes services msg w)
    unfolding req_attributes
    req_attributes-Accounted = elim (Option-cases msg.payload) [
      | inl missing ↦ no_payload services msg _ w missing
      | inr (p, has) ↦
          Guarded-Accounted services msg p w (req_attributes services msg w)
            (req_attributes-Guarded services msg p w has)
    ]

    req_auth-Accounted : Accounted services msg w (req_auth services msg w)
    unfolding req_auth
    req_auth-Accounted = elim (Option-cases msg.payload) [
      | inl missing ↦ no_payload services msg _ w missing
      | inr (p, has) ↦
          Guarded-Accounted services msg p w (req_auth services msg w)
            (req_auth-Guarded services msg p w has)
    ]

    req_signup-Accounted : Accounted services msg w (req_signup services msg w)
    unfolding req_signup
    req_signup-Accounted = elim (Option-cases msg.payload) [
      | inl missing ↦ no_payload services msg _ w missing
      | inr (p, has) ↦
          Guarded-Accounted services msg p w (req_signup services msg w)
            (req_signup-Guarded services msg p w has)
    ]

    handle_type-Accounted :
        (type : Option Text) → Accounted services msg w (handle_type services type msg w)
    unfolding handle_type req_unknown
    handle_type-Accounted type = elim (Bool-cases (type == some (codes "wallets"))) [
      | inl is_wallets ↦ rw (is_wallets, handle_type) (req_wallets-Accounted w)
      | inr not_wallets ↦ elim (Bool-cases (type == some (codes "unlock"))) [
        | inl is_unlock ↦ rw (not_wallets, is_unlock, handle_type) (req_unlock-Accounted)
        | inr not_unlock ↦ elim (Bool-cases (type == some (codes "attributes"))) [
          | inl is_attributes ↦
              rw (not_wallets, not_unlock, is_attributes, handle_type) (req_attributes-Accounted)
          | inr not_attributes ↦ elim (Bool-cases (type == some (codes "auth"))) [
            | inl is_auth ↦
                rw (not_wallets, not_unlock, not_attributes, is_auth, handle_type)
                  (req_auth-Accounted)
            | inr not_auth ↦ elim (Bool-cases (type == some (codes "signup"))) [
              | inl is_signup ↦
                  rw (not_wallets, not_unlock, not_attributes, not_auth, is_signup, handle_type)
                    (req_signup-Accounted)
              | inr not_signup ↦ elim (Bool-cases (type == some (codes "version"))) [
                | inl is_version ↦
                    rw
                      (
                        not_wallets, not_unlock, not_attributes, not_auth, not_signup, is_version,
                        handle_type,
                      )
                      ((λ k i e. inl e))
                | inr not_version ↦
                    rw
                      (
                        not_wallets, not_unlock, not_attributes, not_auth, not_signup, not_version,
                        handle_type,
                      )
                      (reply-Accounted services msg unknown_request w)
              ]
            ]
          ]
        ]
      ]
    ]

    -- After any request, an identity that the connection holds under a key was held under it before,
    -- or the request names the key and its password unlocked a wallet to this identity.
    pub handle_request-Accounted : Accounted services msg w (handle_request services msg w)
    unfolding handle_request
    handle_request-Accounted = handle_type-Accounted msg.type
