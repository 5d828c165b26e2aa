-- ===== src/Marketplace/Selectors/Services.antt =====
-- The services that `servicesSelector` derives from the exchanges.
use identity_wallet.Common.{
  ◌≡◌, refl, ◌||◌, some, List, [], ◌∷◌, ◌++◌, map, map-append, arith, contains, Bool-cases, inl,
  inr, eq_of_true,
}
use identity_wallet.Common.Collection.Laws.{Distinct, contains-append}
use identity_wallet.Common.Collection.Select.{Distinct-append}
use identity_wallet.Schema.Text.{Text, text_eq}
use identity_wallet.Marketplace.Selectors.{
  Exchange, Service, service_ids, exchange_key, service_of, add_services, services_selector,
}

abbrev pub exchange_keys : List Exchange → List Text
exchange_keys = map exchange_key

add_services-ids :
    (es : List Exchange) (acc : List Service)
    → Distinct (service_ids acc)
    → Distinct (service_ids (add_services acc es))
      × ((k : Text)
          → contains (service_ids (add_services acc es)) k
            ≡ contains (service_ids acc) k || contains (exchange_keys es) k)
unfolding add_services service_of
add_services-ids [] acc d = (d, λ k. ground arith)
add_services-ids (e ∷ es) acc d = elim (Bool-cases (contains (service_ids acc) (exchange_key e))) [
  | inl known ↦
      let (u, h) = add_services-ids es acc d in
      rw known (u, λ k. ground (arith, h k, eq_of_true k (exchange_key e)))
  | inr fresh ↦
      let ids = map-append (λ s. s.id) acc (service_of e ∷ []) in
      let (u, h) = add_services-ids es (acc ++ service_of e ∷ []) (
        rw ids (
          Distinct-append {V = Service} (λ s. s.id) (service_ids acc) (exchange_key e ∷ []) d
            (refl, tt) (λ i here. ground arith))) in
      rw fresh (
        u,
        λ k. ground (arith, h k, ids, contains-append (service_ids acc) (exchange_key e ∷ []) k),
      )
]

-- The services have different ids, and these are the ids of the exchanges' services.
pub services_selector-ids :
    (es : List Exchange)
    → (ss : List Service) × (services_selector (some es) ≡ some ss)
      × Distinct (service_ids ss)
      × ((k : Text) → contains (service_ids ss) k ≡ contains (exchange_keys es) k)
unfolding services_selector
services_selector-ids es =
    let (u, h) = add_services-ids es [] tt in (add_services [] es, refl, u, h)
