-- ===== src/Kyc/Operations/Loading.antt =====
-- What loading a relying party leaves in the store, on every path.
use identity_wallet.Common.{
  ℕ, Bool, true, false, Option, none, some, List, [], if◌then◌else◌, Result, ok, throw, Exception,
  ◌≡◌, refl, ◌⊎◌, inl, inr, ◌==◌, ap, ◌∙◌, Bool-cases, ◌≢◌, eq_of_true,
}
use identity_wallet.Common.Dict.{insert}
use identity_wallet.Schema.Text.{Text, codes, text_eq}
use identity_wallet.Staking.Chain.{Run, pure, continue, ◌>>=◌}
use identity_wallet.Kyc.State.{
  Config, Session, Template, Application, RelyingParty, undefined_error, is_true,
}
use identity_wallet.Kyc.Reducers.{
  reducer, update_relying_party, update_relying_party_reducer, set_cancel_route,
}
use identity_wallet.Kyc.Selectors.{Store, ServiceDetails, rp_details}
use identity_wallet.Kyc.Operations.{
  RelyingParties, World, ErrorTexts, rescue, calling, push, dispatch, dispatch, when, is_hardware,
  set_timeout, clear_timeout, establish_failed, get_session, load_templates, load_party, after_load,
  load_named_party, load_relying_party_operation, failed_party,
}

module _ {W : Type 0} (s : Store) where
  abbrev Keeps : {A : Type 0} → Result A × World W → Type 0
  Keeps r = r.1.store ≡ s

  continue-Keeps :
      {A B : Type 0} (f : A → Run (World W) B) (r : Result A × World W)
      → Keeps r
      → ((a : A) (w : World W) → w.store ≡ s → Keeps (f a w))
      → Keeps (continue f r)
  continue-Keeps f (ok a, w) h k = k a w h
  continue-Keeps f (throw x, w) h k = h

  rescue-Keeps :
      {A : Type 0} (f : Exception → Run (World W) A) (r : Result A × World W)
      → Keeps r
      → ((x : Exception) (w : World W) → w.store ≡ s → Keeps (f x w))
      → Keeps (rescue f r)
  rescue-Keeps f (ok a, w) h k = h
  rescue-Keeps f (throw x, w) h k = k x w h

  when-Keeps :
      (b : Bool) (m : Run (World W) (Unit {0})) (w : World W)
      → w.store ≡ s
      → Keeps (m w)
      → Keeps (when b m w)
  when-Keeps true m w h k = k
  when-Keeps false m w h k = h

module _ {W : Type 0} (parties : RelyingParties W) (texts : ErrorTexts) (instance_url : Text)
    (now : ℕ) where
  open parties use {
    create_session, establish, list_kyc_templates, get_kyc_template, list_kyc_applications,
  }

  establish_failed-Keeps :
      (wallet_type : Text) (x : Exception) (w : World W)
      → Keeps w.store (establish_failed parties texts instance_url now wallet_type x w)
  unfolding establish_failed clear_timeout
  establish_failed-Keeps wallet_type x w = elim (Bool-cases (is_hardware wallet_type)) [
    | inl hardware ↦ rw hardware refl
    | inr software ↦ rw software refl
  ]

  get_session-Keeps :
      (config : Option Config) (authenticate : Bool) (wallet_type : Text) (w : World W)
      → Keeps w.store (get_session parties texts instance_url now config authenticate wallet_type w)
  unfolding get_session set_timeout
  get_session-Keeps config false wallet_type w =
      continue-Keeps w.store _ (calling (create_session config) w) refl (λ session w1 e. e)
  get_session-Keeps config true wallet_type w =
      continue-Keeps w.store _ (calling (create_session config) w) refl (λ session w1 e.
        rescue-Keeps w.store _ _
          (continue-Keeps w.store _
            (when (is_hardware wallet_type)
              (set_timeout >>= λ set. push (some (codes "/main/hd-timer"))) w1)
            (when-Keeps w.store (is_hardware wallet_type) _ w1 e e) (λ timed w2 e2. e2))
          (λ x w2 e2. establish_failed-Keeps wallet_type x w2 ∙ e2))

  module _ (name : Text) (authenticate : Bool) (rp : ServiceDetails) where
    abbrev load : World W → Result (Unit {0}) × World W
    load = load_party parties texts instance_url now name authenticate rp

    -- The party that loading stores when nothing throws.
    abbrev pub loaded_party : Session → List Template → List Application → RelyingParty
    loaded_party session templates applications = record {
      name = name;
      description = rp.description;
      templates = some templates;
      applications = some applications;
      session = some session;
      authenticated = some authenticate;
      last_updated = now;
      error = undefined_error;
    }

    -- The store of a call that threw is as before; after the others the party stands in it.
    data Loads (s : Store) (r : Result (Unit {0}) × World W) : Type 0 where
      thrown : (x : Exception) → r.0 ≡ throw x → r.1.store ≡ s → Loads s r
      loaded :
          (session : Session) (templates : List Template) (applications : List Application)
          → r.0 ≡ ok tt
          → r.1.store.kyc.relying_parties_by_name
            ≡ insert name
                (loaded_party session templates applications)
                s.kyc.relying_parties_by_name
          → Loads s r

    continue-Loads :
        {A : Type 0} (s : Store) (f : A → Run (World W) (Unit {0})) (r : Result A × World W)
        → Keeps s r
        → ((a : A) (w : World W) → w.store ≡ s → Loads s (f a w))
        → Loads s (continue f r)
    continue-Loads s f (ok a, w) h k = k a w h
    continue-Loads s f (throw x, w) h k = thrown x refl h

    applications_of-Keeps :
        (session : Session) (w : World W)
        → Keeps w.store
            ((if authenticate then calling (list_kyc_applications session) else pure []) w)
    applications_of-Keeps session w = elim (Bool-cases authenticate) [
      | inl signed ↦ rw signed refl
      | inr anonymous ↦ rw anonymous refl
    ]

    load-Loads : (w : World W) → Loads w.store (load w)
    unfolding load_party update_relying_party reducer update_relying_party_reducer
    load-Loads w =
        continue-Loads w.store _
          (get_session parties texts instance_url now rp.relying_party_config authenticate
            w.store.wallet_type w)
          (get_session-Keeps rp.relying_party_config authenticate w.store.wallet_type w)
          (λ session w1 e1.
            continue-Loads w.store _ (calling (list_kyc_templates session) w1) e1 (λ listed w2 e2.
              continue-Loads w.store _
                (calling (load_templates parties texts instance_url now session listed) w2) e2
                (λ templates w3 e3.
                  continue-Loads w.store _
                    ((if authenticate then calling (list_kyc_applications session) else pure []) w3)
                    (applications_of-Keeps session w3 ∙ e3)
                    (λ applications w4 e4. loaded session templates applications refl (
                      ap
                        (λ (t : Store).
                          insert name (loaded_party session templates applications)
                            t.kyc.relying_parties_by_name)
                        e4)))))

    -- The party that is left when something threw.
    abbrev pub marked_party : RelyingParty
    marked_party = record (failed_party name now) { error = is_true }

    -- Nothing was thrown, and the party is stored: either with its session, templates and
    -- applications, or marked and without them.
    abbrev pub Stored : World W → Result (Unit {0}) × World W → Type 0
    Stored w r =
        (r.0 ≡ ok tt)
        × (p : RelyingParty) × (r.1.store.kyc.relying_parties_by_name
            ≡ insert name p w.store.kyc.relying_parties_by_name)
        × ((p ≡ marked_party)
            ⊎ ((session : Session) × (templates : List Template) × (applications : List Application)
                × (p ≡ loaded_party session templates applications)))

    abbrev after : Option Text → Text → Run (World W) (Unit {0})
    after = after_load parties texts instance_url now name authenticate

    after_load-Keeps :
        (route : Option Text) (wallet_type : Text) (w : World W)
        → ((after route wallet_type w).0 ≡ ok tt) × Keeps w.store (after route wallet_type w)
    unfolding after_load clear_timeout
    after_load-Keeps none wallet_type w = (refl, refl)
    after_load-Keeps (some route) wallet_type w = elim (Bool-cases authenticate) [
      | inr anonymous ↦ rw anonymous (refl, refl)
      | inl signed ↦ elim (Bool-cases (is_hardware wallet_type)) [
        | inl hardware ↦ rw (signed, hardware) (refl, refl)
        | inr software ↦ rw (signed, software) (refl, refl)
      ]
    ]

    abbrev marked : Exception → Run (World W) (Unit {0})
    marked x = dispatch (update_relying_party (failed_party name now) (some x))

    rescue_ok : (r : Result (Unit {0}) × World W) → r.0 ≡ ok tt → rescue marked r ≡ r
    rescue_ok (ok tt, w) h = refl
    rescue_ok (throw x, w) h = cc

    finish :
        (route : Option Text) (wallet_type : Text) (w : World W) (s : Store)
        (r : Result (Unit {0}) × World W)
        → s.kyc.relying_parties_by_name ≡ w.store.kyc.relying_parties_by_name
        → Loads s r
        → Stored w (rescue marked (continue (λ done. after route wallet_type) r))
    unfolding update_relying_party reducer update_relying_party_reducer
    finish route wallet_type w s (throw y, w1) e (thrown x q h) = (
      refl,
      marked_party,
      ap (λ (t : Store). insert name marked_party t.kyc.relying_parties_by_name) h
          ∙ ap (insert name marked_party) e,
      inl refl,
    )
    finish route wallet_type w s (ok done, w1) e (loaded session templates applications q h) =
        let (returned, kept) = after_load-Keeps route wallet_type w1 in
        rw (rescue_ok (after route wallet_type w1) returned) (
          returned,
          loaded_party session templates applications,
          ap (λ (t : Store). t.kyc.relying_parties_by_name) kept
              ∙ h
              ∙ ap (insert name (loaded_party session templates applications)) e,
          inr (session, templates, applications, refl),
        )
    finish route wallet_type w s (ok done, w1) e (thrown x q h) = cc
    finish route wallet_type w s (throw y, w1) e (loaded session templates applications q h) = cc

    load_named_party-Stored :
        (after_auth_route cancel_route : Option Text) (w : World W)
        → rp_details instance_url w.store.exchanges name ≡ ok rp
        → Stored w (
            load_named_party parties texts instance_url now name authenticate after_auth_route
              cancel_route w)
    unfolding load_named_party reducer set_cancel_route
    load_named_party-Stored route cancel_route w h =
        let routed : World W = record w {
          store = record w.store { kyc = record w.store.kyc { cancel_route = cancel_route } };
        } in
        rw h
          (finish route w.store.wallet_type w routed.store (load routed) refl (load-Loads routed))

    -- Loading a relying party that is named and whose details are there never throws. It stores the
    -- party as of now: with its session, templates and applications, or marked as failed and without
    -- any of them, also without those that it had before. Every other party stays as it was.
    pub load_relying_party_operation-Stored :
        (after_auth_route cancel_route : Option Text) (w : World W)
        → name ≢ []
        → rp_details instance_url w.store.exchanges name ≡ ok rp
        → Stored w (
            load_relying_party_operation parties texts instance_url now name authenticate
              after_auth_route cancel_route w)
    unfolding load_relying_party_operation
    load_relying_party_operation-Stored route cancel_route w named h =
        elim (Bool-cases (name == [])) [
          | inl empty ↦ absurd (named (eq_of_true name [] empty))
          | inr full ↦ rw full (load_named_party-Stored route cancel_route w h)
        ]
