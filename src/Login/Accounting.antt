-- ===== src/Login/Accounting.antt =====
-- What may happen to the identities of a connection, and the steps that leave them alone.
use identity_wallet.Common.{
  ◌≡◌, refl, ap, sym, subst, ◌∙◌, ◌⊎◌, inl, inr, Option, none, some, arith, Result, ok, throw,
  option_eq,
}
use identity_wallet.Schema.Text.{Text, text_eq}
use identity_wallet.Staking.Chain.{Run, continue}
use identity_wallet.Login.State.{Request, Payload, Body, Wallet, Services, World, Connection}
use identity_wallet.Login.Connection.{
  get_identity, send, reply, calling, settle, present, for_payload,
}
use identity_wallet.Login.Replies.{Guarded}

get-send :
    {I : Type 0} (body : Body) (msg : Request) (k : Option Text) (c : Connection I)
    → get_identity k (send body msg c) ≡ get_identity k c
unfolding send get_identity
get-send body msg none c = refl
get-send body msg (some k) c = ground arith

module _ {D I S : Type 0} (services : Services D I S) (msg : Request) where
  -- The identity is what unlocking a wallet with the password of the request returned, and the
  -- request names the key.
  abbrev pub Unlocks : Text → I → Type 0
  Unlocks k i =
      (p : Payload) × (msg.payload ≡ some p)
      × (p.public_key ≡ some k)
      × (wallet : Wallet) × (d d' : D) × (services.unlock_identity wallet p.password d ≡ (ok i, d'))

  -- An identity on the connection was there before, or the request unlocks it.
  abbrev pub Accounted : {A : Type 0} → World D I → Result A × World D I → Type 0
  Accounted w r =
      (k : Text) (i : I)
      → get_identity (some k) r.1.connection ≡ some i
      → (get_identity (some k) w.connection ≡ some i) ⊎ Unlocks k i

  pub same-Accounted :
      {A : Type 0} (w : World D I) (r : Result A × World D I)
      → ((k : Text) → get_identity (some k) r.1.connection ≡ get_identity (some k) w.connection)
      → Accounted w r
  same-Accounted w r h k i e = inl (sym (h k) ∙ e)

  pub continue-Accounted :
      {A B : Type 0} (w : World D I) (f : A → Run (World D I) B) (r : Result A × World D I)
      → Accounted w r
      → ((a : A) (w' : World D I) → Accounted w' (f a w'))
      → Accounted w (continue f r)
  continue-Accounted w f (throw x, w') h g k i e = h k i e
  continue-Accounted w f (ok a, w') h g k i e = elim (g a w' k i e) [
    | inl old ↦ h k i old
    | inr new ↦ inr new
  ]

  pub settle-Accounted :
      {A B : Type 0} (w : World D I) (f : Result A → Run (World D I) B) (r : Result A × World D I)
      → Accounted w r
      → ((x : Result A) (w' : World D I) → Accounted w' (f x w'))
      → Accounted w (settle f r)
  settle-Accounted w f (x, w') h g k i e = elim (g x w' k i e) [
    | inl old ↦ h k i old
    | inr new ↦ inr new
  ]

  pub reply-Accounted : (body : Body) (w : World D I) → Accounted w (reply body msg w)
  reply-Accounted body w =
      same-Accounted w (reply body msg w) (λ k. get-send body msg (some k) w.connection)

  pub calling-Accounted : {A : Type 0} (m : Run D A) (w : World D I) → Accounted w (calling m w)
  calling-Accounted m w = same-Accounted w (calling m w) (λ k. refl)

  pub present-Accounted : {A : Type 0} (o : Option A) (w : World D I) → Accounted w (present o w)
  present-Accounted {A} none w = same-Accounted {A = A} w (present none w) (λ k. refl)
  present-Accounted (some a) w = same-Accounted w (present (some a) w) (λ k. refl)

  pub Guarded-Accounted :
      (p : Payload) (w : World D I) (r : Result (Unit {0}) × World D I)
      → Guarded services msg p w r
      → Accounted w r
  Guarded-Accounted p w r (body, (returned, same), locked) =
      same-Accounted w r
        (λ k. ap (get_identity (some k)) same ∙ get-send body msg (some k) w.connection)

  pub payload-Accounted :
      (f : Payload → Run (World D I) (Unit {0})) (w : World D I)
      → ((p : Payload) → msg.payload ≡ some p → Accounted w (f p w))
      → Accounted w (for_payload f msg.payload w)
  payload-Accounted f w h = by_payload msg.payload refl
    where
      by_payload : (o : Option Payload) → msg.payload ≡ o → Accounted w (for_payload f o w)
      by_payload none e = λ k i there. inl there
      by_payload (some p) e = h p e

  pub no_payload :
      (f : Payload → Run (World D I) (Unit {0})) (w : World D I)
      → msg.payload ≡ none
      → Accounted w (for_payload f msg.payload w)
  no_payload f w e = subst (λ o. Accounted w (for_payload f o w)) (sym e) (λ k i there. inl there)
