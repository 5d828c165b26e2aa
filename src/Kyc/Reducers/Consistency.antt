-- ===== src/Kyc/Reducers/Consistency.antt =====
-- The list of relying parties and the parties by name stay in step.
use identity_wallet.Common.{
  false, Option, none, some, List, [], ◌∷◌, ◌++◌, is_some, ok, ◌≡◌, refl, ap, arith, contains,
  subst, Option-cases, inl, inr,
}
use identity_wallet.Common.Dict.{lookup, insert, lookup-insert, lookup-nil}
use identity_wallet.Common.Collection.Laws.{Distinct, contains-append}
use identity_wallet.Common.Collection.Select.{Distinct-append}
use identity_wallet.Schema.Text.{Text, text_eq}
use identity_wallet.Kyc.State.{
  State, Action, RelyingParty, ErrorField, Application, CurrentApplication, no_application,
}
use identity_wallet.Kyc.Reducers.{
  reducer, update_relying_party_reducer, add_kyc_application_reducer,
  set_current_application_reducer, clear_current_application_reducer, set_cancel_route,
}

-- The parties that are stored are those listed, each once, and each stands under its name.
pub record IsValid (s : State) : Type 0 where
  pub domain :
      (n : Text) → is_some (lookup n s.relying_parties_by_name) ≡ contains s.relying_parties n
  pub distinct : Distinct s.relying_parties
  pub keyed :
      (n : Text) (rp : RelyingParty) → lookup n s.relying_parties_by_name ≡ some rp → rp.name ≡ n

Distinct-snoc :
    (ns : List Text) (n : Text) → Distinct ns → contains ns n ≡ false → Distinct (ns ++ n ∷ [])
Distinct-snoc ns n d new =
    Distinct-append {V = Text} (λ x. x) ns (n ∷ []) d (refl, tt) (λ i known. ground (arith, new))

module _ (s : State) (v : IsValid s) where
  update_relying_party_reducer-IsValid :
      (rp : Option RelyingParty) (e : ErrorField) → IsValid (update_relying_party_reducer rp e s)
  unfolding update_relying_party_reducer
  update_relying_party_reducer-IsValid none e = record {
    domain = λ n. ap is_some (lookup-nil {V = RelyingParty} n);
    distinct = tt;
    keyed = λ n rp h. ground (arith, lookup-nil {V = RelyingParty} n);
  }
  update_relying_party_reducer-IsValid (some rp) e = record {
    domain = λ n. ground (
      arith,
      lookup-insert n rp.name (record rp { error = e }) s.relying_parties_by_name,
      v.domain n,
      v.domain rp.name,
      contains-append s.relying_parties (rp.name ∷ []) n,
    );
    distinct =
        ground (arith, v.distinct, v.domain rp.name, Distinct-snoc s.relying_parties rp.name);
    keyed = λ n x h. ground (
      arith,
      lookup-insert n rp.name (record rp { error = e }) s.relying_parties_by_name,
      v.keyed n x,
    );
  }

  replaced-IsValid :
      (n : Text) (rp x : RelyingParty)
      → lookup n s.relying_parties_by_name ≡ some rp
      → x.name ≡ rp.name
      → IsValid (record s { relying_parties_by_name = insert rp.name x s.relying_parties_by_name })
  replaced-IsValid n rp x found named = record {
    domain = λ m. ground (
      arith,
      lookup-insert m rp.name x s.relying_parties_by_name,
      v.domain m,
      v.domain n,
      v.keyed n rp,
    );
    distinct = v.distinct;
    keyed =
        λ m y h. ground (arith, lookup-insert m rp.name x s.relying_parties_by_name, v.keyed m y);
  }

  add_kyc_application_reducer-IsValid :
      (n : Text) (a : Application) (s' : State)
      → add_kyc_application_reducer n a s ≡ ok s'
      → IsValid s'
  unfolding add_kyc_application_reducer
  add_kyc_application_reducer-IsValid n a s' h =
      elim (Option-cases (lookup n s.relying_parties_by_name)) [
        | inl missing ↦ absurd (ground (arith, missing))
        | inr (rp, found) ↦ elim (Option-cases rp.applications) [
          | inl missing ↦ absurd (ground (arith, found, missing))
          | inr (as', listed) ↦
              subst IsValid (ground (arith, found, listed)) (
                replaced-IsValid n rp (record rp { applications = some (as' ++ a ∷ []) }) found
                  refl)
        ]
      ]

  elsewhere-IsValid :
      (c : Option CurrentApplication) (r : Option Text)
      → IsValid (record s { current_application = c; cancel_route = r })
  elsewhere-IsValid c r = record { domain = v.domain; distinct = v.distinct; keyed = v.keyed }

-- Every action that does not throw keeps the list of relying parties free of repetitions and in step
-- with the parties by name, each of which stands under its own name.
pub kyc_reducer-IsValid :
    (s : State) (a : Action) (s' : State) → IsValid s → reducer s a ≡ ok s' → IsValid s'
unfolding reducer set_current_application_reducer clear_current_application_reducer set_cancel_route
kyc_reducer-IsValid s (Action.rp_update rp e) s' v h =
    subst IsValid (ground (arith, h)) (update_relying_party_reducer-IsValid s v rp e)
kyc_reducer-IsValid s (Action.application_add n a) s' v h =
    add_kyc_application_reducer-IsValid s v n a s' h
kyc_reducer-IsValid s (Action.current_set none) s' v h =
    subst IsValid (ground (arith, h)) (elsewhere-IsValid s v (some no_application) s.cancel_route)
kyc_reducer-IsValid s (Action.current_set (some a)) s' v h =
    subst IsValid (ground (arith, h)) (elsewhere-IsValid s v (some a) s.cancel_route)
kyc_reducer-IsValid s Action.current_clear s' v h =
    subst IsValid (ground (arith, h)) (elsewhere-IsValid s v none s.cancel_route)
kyc_reducer-IsValid s (Action.cancel_route_set r) s' v h =
    subst IsValid (ground (arith, h)) (elsewhere-IsValid s v s.current_application r)
