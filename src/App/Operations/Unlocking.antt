-- ===== src/App/Operations/Unlocking.antt =====
-- What unlocking a wallet leaves: in the state of the application, and in the wallet of the store.
use identity_wallet.Common.{
  Option, none, some, ◌∷◌, ◌≡◌, refl, sym, ap, ◌∙◌, ◌⊎◌, inl, inr, Result, ok, throw, Exception,
  or_else, ◌==◌, if◌then◌else◌,
}
use identity_wallet.Schema.Text.{Text, codes, text_eq}
use identity_wallet.Schema.Value.{Value, Fields, get, has_field}
use identity_wallet.Staking.Chain.{Run, continue, ◌>>=◌}
use identity_wallet.Wallet.Store
use identity_wallet.Wallet.Store.{update_wallet_with_balance}
use identity_wallet.Wallet.Replacing.{IsProper, get-assign-put}
use identity_wallet.App.State.{app_reducer}
use identity_wallet.App.Operations.{
  Services, World, rescue, transform_error_message, set_error, unlock_wallet, set_type, on_store,
  push,
}

module _ {W : Type 0} where
  -- What follows a call that changes the store alone, whether it throws or not.
  continue-store :
      {A : Type 0} (P : Result (Unit {0}) × World W → Type 0) (f : A → Run (World W) (Unit {0}))
      (r : Result A × Store.World W) (w : World W)
      → ((a : A) (s : Store.World W) → r ≡ (ok a, s) → P (f a (record w { store = s })))
      → ((x : Exception) (s : Store.World W)
          → r ≡ (throw x, s)
          → P (throw x, record w { store = s }))
      → P (continue f (on_store r w))
  continue-store P f (ok a, s) w returns throws = returns a s refl
  continue-store P f (throw x, s) w returns throws = throws x s refl

store_wallet :
    {W A : Type 0} {r : Result A × Store.World W} {q : Result A} {s : Store.World W}
    → r ≡ (q, s)
    → s.wallet ≡ r.1.wallet
store_wallet {W} {A} e = ap (λ (p : Result A × Store.World W). p.1.wallet) (sym e)

Result-cases :
    {A C : Type 0} (r : Result A × C)
    → ((a : A) × (c : C) × (r ≡ (ok a, c))) ⊎ ((x : Exception) × (c : C) × (r ≡ (throw x, c)))
Result-cases (ok a, c) = inl (a, c, refl)
Result-cases (throw x, c) = inr (x, c, refl)

module _ {W : Type 0} (services : Services W) where
  open services use {message, unlock_identity}

  -- Either the wallet is open, or its exception is shown and the route is the one before.
  abbrev pub Opened : Option Text → World W → World W → Type 0
  Opened wallet_type w w' =
      (w'.routes ≡ codes "/main/dashboard" ∷ w.routes)
      × (w'.app.error ≡ w.app.error)
      × (w'.app.wallet_type ≡ or_else wallet_type w.app.wallet_type)

  abbrev pub Refused : World W → World W → Type 0
  Refused w w' =
      (x : Exception) × (w'.app.error ≡ transform_error_message (message x))
      × (w'.routes ≡ w.routes)
      × (w'.app.wallet_type ≡ w.app.wallet_type)

  abbrev Ended : Option Text → World W → Result (Unit {0}) × World W → Type 0
  Ended wallet_type w r =
      let r' = rescue (set_error services) r in
      (r'.0 ≡ ok tt) × (Opened wallet_type w r'.1 ⊎ Refused w r'.1)

  set_type-Ended :
      (wallet_type : Option Text) (w : World W) (s : Store.World W)
      → Ended wallet_type w (
          (set_type services wallet_type >>= λ u. push (codes "/main/dashboard"))
            (record w { store = s }))
  unfolding app_reducer
  set_type-Ended none w s = (refl, inl (refl, refl, refl))
  set_type-Ended (some type) w s = (refl, inl (refl, refl, refl))

  -- Unlocking a wallet throws nothing. If it succeeds, the route is that of the dashboard, the error is
  -- the one before, and the type of the wallet is set where the operation sets one; if it fails, the
  -- error is the message of an exception, and the route and the type are those before.
  pub unlock_wallet-outcome :
      (find : Run W Fields) (wallet_type : Option Text) (w : World W)
      → ((unlock_wallet services find wallet_type w).0 ≡ ok tt)
        × (Opened wallet_type w (unlock_wallet services find wallet_type w).1
            ⊎ Refused w (unlock_wallet services find wallet_type w).1)
  unfolding unlock_wallet set_error app_reducer
  unlock_wallet-outcome find wallet_type w =
      continue-store (Ended wallet_type w) _ (Store.calling find w.store) w
        (λ wallet s e.
          continue-store (Ended wallet_type w) _
            (update_wallet_with_balance services.store wallet s) (record w { store = s })
            (λ u s1 e1.
              continue-store (Ended wallet_type w) _
                (Store.calling (unlock_identity (get (codes "id") wallet)) s1)
                (record w { store = s1 }) (λ u' s2 e2. set_type-Ended wallet_type w s2)
                (λ x s2 e2. (refl, inr (x, refl, refl, refl))))
            (λ x s1 e1. (refl, inr (x, refl, refl, refl))))
        (λ x s e. (refl, inr (x, refl, refl, refl)))

  abbrev Ends : Fields → Result (Unit {0}) × World W → Type 0
  Ends v r = (rescue (set_error services) r).1.store.wallet ≡ v

  set_type-Ends :
      (wallet_type : Option Text) (w : World W)
      → Ends w.store.wallet
          ((set_type services wallet_type >>= λ u. push (codes "/main/dashboard")) w)
  unfolding set_type
  set_type-Ends none w = refl
  set_type-Ends (some type) w = refl

  -- What follows the update of the wallet leaves it, also if it throws.
  identity-Ends :
      (wallet_type : Option Text) (id : Value) (w : World W)
      → Ends w.store.wallet (
          continue
            (λ u. set_type services wallet_type >>= λ u'. push (codes "/main/dashboard"))
            (on_store (Store.calling (unlock_identity id) w.store) w))
  unfolding set_error
  identity-Ends wallet_type id w =
      let same = Store.on_services-wallet (unlock_identity id w.store.services) w.store in
      continue-store (Ends w.store.wallet) _ (Store.calling (unlock_identity id) w.store) w
        (λ u s e. set_type-Ends wallet_type (record w { store = s }) ∙ store_wallet e ∙ same)
        (λ x s e. store_wallet e ∙ same)

  -- Where the wallet that is unlocked was found, as an object that has each property once, its balance
  -- is asked for. If that throws, the store keeps its wallet. If not, whatever happens then, every
  -- property of the found wallet replaces the one in the store, and the balance is the answer; thus the
  -- private key that was unlocked before goes, where the row of the found wallet has one that is null.
  -- Only properties that the found wallet does not have stay.
  pub unlock_wallet-replaces :
      (find : Run W Fields) (wallet_type : Option Text) (w : World W) {row : Fields} {s : W}
      → find w.store.services ≡ (ok row, s)
      → IsProper row
      → let wallet = (unlock_wallet services find wallet_type w).1.store.wallet in
        let asked = services.store.get_balance (get (codes "id") row) s in
        ((x : Exception) × (s' : W) × (asked ≡ (throw x, s')) × (wallet ≡ w.store.wallet))
        ⊎ ((balance : Value) × (s' : W) × (asked ≡ (ok balance, s'))
            × ((k : Text)
                → get k wallet ≡ (
                    if k == codes "balance"
                    then balance
                    else if has_field k row
                    then get k row
                    else get k w.store.wallet)))
  unfolding unlock_wallet set_error update_wallet_with_balance
  unlock_wallet-replaces find wallet_type w {row} {s} found proper =
      elim (Result-cases (services.store.get_balance (get (codes "id") row) s)) [
        | inl (balance, s', e) ↦ inr (
          balance,
          s',
          e,
          λ k.
              rw (found, e)
                (ap (get k) (identity-Ends wallet_type (get (codes "id") row) _)
                  ∙ get-assign-put k (codes "balance") balance w.store.wallet row proper),
        )
        | inr (x, s', e) ↦ inl (x, s', e, rw (found, e) refl)
      ]
