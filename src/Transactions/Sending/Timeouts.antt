-- ===== src/Transactions/Sending/Timeouts.antt =====
-- The timeout against the answers of the wallet service, in every order of events.
use identity_wallet.Common.{
  Bool, true, false, not, List, [], ◌∷◌, ◌++◌, ◌≡◌, refl, arith, sym, ap, ◌∙◌, Result, ok, throw,
}
use identity_wallet.Schema.Text.{Text}
use identity_wallet.Staking.Chain.{Run, continue}
use identity_wallet.Transactions.State.{transaction_reducer, set_properties, set_property}
use identity_wallet.Transactions.Operations.{Services, World, calling}
use identity_wallet.Transactions.Sending.{
  Send, Event, transaction_hash, receipt, failure, timeout, Sending, sets_timeout, start, on_event,
  run, on_receipt, after_receipt, update_balances, confirm, incorporation,
}

-- Whether a timeout goes off: it is set, and is due before there is a hash or a failure.
unfoldable pub times_out : Bool → List Event → Bool
times_out false es = false
times_out true [] = false
times_out true (transaction_hash hash ∷ es) = false
times_out true (receipt ∷ es) = times_out true es
times_out true (failure x ∷ es) = false
times_out true (timeout ∷ es) = true

-- An event that ends the wait for a hardware wallet.
abbrev is_answer : Event → Bool
is_answer (transaction_hash hash) = true
is_answer (failure x) = true
is_answer receipt = false
is_answer timeout = false

abbrev pub hash_of : {W : Type 0} → World W → Text
hash_of w = w.transaction.transaction_hash

module _ {W : Type 0} (services : Services W) (send : Send) where
  open services use {update_wallet_with_balance, update_wallet_tokens_with_balance}

  on_event_unpending :
      (e : Event) (s : Sending W)
      → s.pending ≡ false
      → ((on_event services send e s).pending ≡ false)
        × ((on_event services send e s).listening ≡ s.listening)
  unfolding on_event
  on_event_unpending (transaction_hash hash) s h = ground arith
  on_event_unpending receipt s h = ground arith
  on_event_unpending (failure x) s h = ground arith
  on_event_unpending timeout s h = ground arith

  on_event_closed :
      (e : Event) (s : Sending W)
      → s.pending ≡ false
      → s.listening ≡ false
      → on_event services send e s ≡ s
  unfolding on_event
  on_event_closed (transaction_hash hash) s h k = rw k refl
  on_event_closed receipt s h k = rw k refl
  on_event_closed (failure x) s h k = rw k refl
  on_event_closed timeout s h k = rw h refl

  -- With the timeout gone, the listeners stay; without them, nothing changes.
  run_unpending :
      (es : List Event) (s : Sending W)
      → s.pending ≡ false
      → (run services send es s).listening ≡ s.listening
  unfolding run
  run_unpending [] s h = refl
  run_unpending (e ∷ es) s h =
      let (gone, same) = on_event_unpending e s h in
      run_unpending es (on_event services send e s) gone ∙ same

  run_closed :
      (es : List Event) (s : Sending W)
      → s.pending ≡ false
      → s.listening ≡ false
      → run services send es s ≡ s
  unfolding run
  run_closed [] s h k = refl
  run_closed (e ∷ es) s h k = rw (on_event_closed e s h k) (run_closed es s h k)

  run-append :
      (es es' : List Event) (s : Sending W)
      → run services send (es ++ es') s ≡ run services send es' (run services send es s)
  unfolding run
  run-append [] es' s = refl
  run-append (e ∷ es) es' s = run-append es es' (on_event services send e s)

  on_event_answered :
      (e : Event) (s : Sending W)
      → s.listening ≡ true
      → is_answer e ≡ true
      → ((on_event services send e s).pending ≡ false)
        × ((on_event services send e s).listening ≡ true)
  unfolding on_event
  on_event_answered (transaction_hash hash) s h a = ground arith
  on_event_answered (failure x) s h a = ground arith
  on_event_answered receipt s h a = cc
  on_event_answered timeout s h a = cc

  on_receipt_waits :
      (s : Sending W)
      → ((on_event services send receipt s).pending ≡ s.pending)
        × ((on_event services send receipt s).listening ≡ s.listening)
  unfolding on_event
  on_receipt_waits s = ground arith

  on_timeout_closes :
      (s : Sending W)
      → s.pending ≡ true
      → ((on_event services send timeout s).pending ≡ false)
        × ((on_event services send timeout s).listening ≡ false)
  unfolding on_event
  on_timeout_closes s h = ground arith

  answered_run :
      (e : Event) (es : List Event) (s : Sending W)
      → s.listening ≡ true
      → is_answer e ≡ true
      → (run services send es (on_event services send e s)).listening ≡ true
  answered_run e es s h a =
      let (gone, open_still) = on_event_answered e s h a in
      run_unpending es (on_event services send e s) gone ∙ open_still

  run_pending :
      (es : List Event) (s : Sending W)
      → s.listening ≡ true
      → s.pending ≡ true
      → (run services send es s).listening ≡ not (times_out true es)
  unfolding run times_out
  run_pending [] s h k = h
  run_pending (transaction_hash hash ∷ es) s h k = answered_run (transaction_hash hash) es s h refl
  run_pending (failure x ∷ es) s h k = answered_run (failure x) es s h refl
  run_pending (receipt ∷ es) s h k =
      let (waits, listens) = on_receipt_waits s in
      run_pending es (on_event services send receipt s) (listens ∙ h) (waits ∙ k)
  run_pending (timeout ∷ es) s h k =
      let (gone, closed) = on_timeout_closes s k in
      run_unpending es (on_event services send timeout s) gone ∙ closed

  run_listening :
      (b : Bool) (es : List Event) (s : Sending W)
      → s.listening ≡ true
      → s.pending ≡ b
      → (run services send es s).listening ≡ not (times_out b es)
  unfolding times_out
  run_listening true es s h k = run_pending es s h k
  run_listening false es s h k = run_unpending es s k ∙ h

  -- The listeners of a send are taken away exactly if a timeout is set for its wallet and is due
  -- before a hash or a failure came: in every order of events.
  pub run-listening :
      (es : List Event) (w : World W)
      → (run services send es (start services send w)).listening
        ≡ not (times_out (sets_timeout send w.wallet_type) es)
  unfolding start
  run-listening es w =
      run_listening (sets_timeout send w.wallet_type) es (start services send w) refl refl

  continue-hash :
      {A B : Type 0} (h : Text) (f : A → Run (World W) B) (r : Result A × World W)
      → hash_of r.1 ≡ h
      → ((a : A) (w : World W) → hash_of w ≡ h → hash_of (f a w).1 ≡ h)
      → hash_of (continue f r).1 ≡ h
  continue-hash h f (ok a, w) e k = k a w e
  continue-hash h f (throw x, w) e k = e

  after_receipt-hash : (t : Send) (w : World W) → hash_of (after_receipt t w).1 ≡ hash_of w
  unfolding after_receipt
  after_receipt-hash confirm w = refl
  after_receipt-hash (incorporation company_code country_code) w = refl

  on_receipt-hash : (w : World W) → hash_of (on_receipt services send w).1 ≡ hash_of w
  unfolding on_receipt update_balances transaction_reducer set_properties set_property
  on_receipt-hash w =
      continue-hash (hash_of w) _ (update_balances services send w)
        (continue-hash (hash_of w) _ (calling update_wallet_with_balance w) refl (λ u w1 e1.
          continue-hash (hash_of w) _ (calling update_wallet_tokens_with_balance w1) e1
            (λ u' w2 e2. e2)))
        (λ u w3 e3. after_receipt-hash send w3 ∙ e3)

  on_event-receipt_hash :
      (s : Sending W) → hash_of (on_event services send receipt s).world ≡ hash_of s.world
  unfolding on_event
  on_event-receipt_hash s = ground (arith, on_receipt-hash s.world)

  on_event-timeout_hash :
      (s : Sending W) → hash_of (on_event services send timeout s).world ≡ hash_of s.world
  unfolding on_event
  on_event-timeout_hash s = ground arith

  timed_out_run :
      (es es' : List Event) (s : Sending W)
      → s.pending ≡ true
      → times_out true es ≡ true
      → (hash_of (run services send es s).world ≡ hash_of s.world)
        × (run services send (es ++ es') s ≡ run services send es s)
  unfolding run times_out
  timed_out_run [] es' s k t = cc
  timed_out_run (transaction_hash hash ∷ es) es' s k t = cc
  timed_out_run (failure x ∷ es) es' s k t = cc
  timed_out_run (receipt ∷ es) es' s k t =
      let (same, closed) =
        timed_out_run es es' (on_event services send receipt s) ((on_receipt_waits s).0 ∙ k) t in
      (same ∙ on_event-receipt_hash s, closed)
  timed_out_run (timeout ∷ es) es' s k t =
      let s' = on_event services send timeout s in
      let (gone, closed) = on_timeout_closes s k in
      (
        ap (λ x. hash_of x.world) (run_closed es s' gone closed) ∙ on_event-timeout_hash s,
        run_closed (es ++ es') s' gone closed ∙ sym (run_closed es s' gone closed),
      )

  times_out-set : (b : Bool) (es : List Event) → times_out b es ≡ true → b ≡ true
  unfolding times_out
  times_out-set true es h = refl
  times_out-set false es h = cc

  -- A send that timed out has stored no hash of a transaction, and nothing that the wallet service
  -- emits later changes the store or the route any more.
  pub run-times_out :
      (es es' : List Event) (w : World W)
      → times_out (sets_timeout send w.wallet_type) es ≡ true
      → (hash_of (run services send es (start services send w)).world ≡ hash_of w)
        × (run services send (es ++ es') (start services send w)
            ≡ run services send es (start services send w))
  unfolding start
  run-times_out es es' w h =
      let set = times_out-set (sets_timeout send w.wallet_type) es h in
      timed_out_run es es' (start services send w) set (rw set at h)
