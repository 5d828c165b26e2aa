-- ===== src/Incorporations/Operations/Outcome.antt =====
-- What loading the incorporations leaves.
use identity_wallet.Common.{true, false, none, some, List, ◌≡◌, refl, Result, ok, throw}
use identity_wallet.Common.Collection.{of_list}
use identity_wallet.Schema.Value.{Fields}
use identity_wallet.Schema.Text.{text_eq}
use identity_wallet.Staking.Chain.{continue}
use identity_wallet.Incorporations.State.{State, Rows, row_id, with_rows, incorporations_reducer}
use identity_wallet.Incorporations.Operations.{
  Tables, Services, World, concluded, on_services, load_incorporations_operation, store_tables,
}

-- One table after the other, up to the first that is missing, with the error then.
abbrev keep_rows : Rows → (List Fields → State → State) → (State → State) → State → State
keep_rows none f next s = record s { error = true }
keep_rows (some rows) f next s = next (f rows s)

abbrev pub stored : Tables → State → State
stored d =
    keep_rows d.incorporations (λ rows s. record s { incorporations = of_list row_id rows })
      (keep_rows d.corporations (λ rows s. record s { corporations = of_list row_id rows })
        (keep_rows d.llcs (λ rows s. record s { llcs = of_list row_id rows })
          (keep_rows d.foundations (λ rows s. record s { foundations = of_list row_id rows })
            (keep_rows d.taxes (λ rows s. record s { taxes = of_list row_id rows })
              (keep_rows d.translation
                (λ rows s. record s { translation = some (of_list row_id rows) }) (λ s. s))))))

abbrev pub loaded : Result Tables → State → State
loaded (ok d) s = stored d (record s { loading = false; error = false })
loaded (throw x) s = record s { loading = false; error = true }

module _ {W : Type 0} (services : Services W) where
  store_tables-stored :
      (incorporations corporations llcs foundations taxes translation : Rows) (w : World W)
      → let d : Tables = record {
        incorporations = incorporations;
        corporations = corporations;
        llcs = llcs;
        foundations = foundations;
        taxes = taxes;
        translation = translation;
      } in
        concluded (store_tables services d w)
        ≡ (ok tt, record w { state = stored d (record w.state { loading = false }) })
  unfolding store_tables incorporations_reducer with_rows
  store_tables-stored none c l f t tr w = refl
  store_tables-stored (some i) none l f t tr w = refl
  store_tables-stored (some i) (some c) none f t tr w = refl
  store_tables-stored (some i) (some c) (some l) none t tr w = refl
  store_tables-stored (some i) (some c) (some l) (some f) none tr w = refl
  store_tables-stored (some i) (some c) (some l) (some f) (some t) none w = refl
  store_tables-stored (some i) (some c) (some l) (some f) (some t) (some tr) w = refl

  fetched :
      (r : Result Tables × W) (w : World W)
      → concluded (
          continue
            (store_tables services)
            (on_services r (record w { state = record w.state { loading = true; error = false } })))
        ≡ (ok tt, record { services = r.1; state = loaded r.0 w.state })
  unfolding incorporations_reducer
  fetched (throw x, d) w = refl
  fetched (ok t, d) w =
      store_tables-stored t.incorporations t.corporations t.llcs t.foundations t.taxes t.translation
        (record { services = d; state = record w.state { loading = true; error = false } })

  -- Loading the incorporations throws nothing and ends the mark of loading; the error is set exactly if
  -- the service throws or a table is missing, and the tables before a missing one are stored.
  pub load_incorporations_operation-loaded :
      (w : World W)
      → load_incorporations_operation services w ≡ (
        ok tt,
        record {
          services = (services.load_incorporations w.services).1;
          state = loaded (services.load_incorporations w.services).0 w.state;
        },
      )
  unfolding load_incorporations_operation incorporations_reducer
  load_incorporations_operation-loaded w = fetched (services.load_incorporations w.services) w
