-- ===== src/Web3/Sending/Nonces.antt =====
-- The nonces of the transactions that `sendSignedTransaction` of src/main/blockchain/web3-service.js
-- signs.
use identity_wallet.Common.{
  ℕ, ◌+◌, Bool, true, false, Option, none, List, ◌≡◌, ◌≢◌, refl, arith, sym, ap, ◌∙◌, ◌⊎◌, Result,
  ok, throw, error, Exception, nat_eq, if◌then◌else◌,
}
use identity_wallet.Schema.Text.{Text, codes, text_eq}
use identity_wallet.Schema.Value.{Value, num, Fields, get, put, has_field, truthy, strict_eq}
use identity_wallet.Staking.Chain.{Run, continue-ok}
use identity_wallet.Wallet.Store.{get-assign_other, has_field-put}
use identity_wallet.Web3.Sending.{
  Target, Ticket, Node, World, Pending, Handled, promised, next_nonce, sign_and_send,
  send_signed_transaction, handle_ticket, or_ask, calling, require, target_of, send_itself,
  send_here, options_of, wallet_used, signs_itself, sign_with, keep_nonce, on_node, raw_tx,
}

-- The nonce after `last`, where the node counts `count` transactions.
abbrev pub Advances : ℕ → ℕ → ℕ → Type 0
Advances last count nonce =
    ((count ≢ last) × (nonce ≡ count)) ⊎ ((count ≡ last) × (nonce ≡ count + 1))

-- What sends a transaction: the node is asked for the count of the address and answers it; the
-- transaction with the nonce after `last` is signed, and given to the node that has answered, which
-- gives the promise `p`; the nonce is kept in the last world.
pub record Signed {W : Type 0} (node : Node W) (from : Value) (last : ℕ) (p : Pending W)
    (w : World W) : Type 0 where
  pub count : ℕ
  pub nonce : ℕ
  pub asked : W
  pub counted : W
  pub tx : Fields
  pub key : Text
  pub serialized : Text
  pub counts : node.get_transaction_count from asked ≡ (ok count, counted)
  pub advances : Advances last count nonce
  pub has_nonce : get (codes "nonce") tx ≡ node.to_hex (num nonce)
  pub signs : node.sign tx key ≡ ok serialized
  pub sends : node.send_signed serialized counted ≡ (ok p, w.node)
  pub keeps : w.nonce ≡ nonce

next_nonce-Advances : (last count : ℕ) → Advances last count (next_nonce last count)
unfolding next_nonce
next_nonce-Advances last count = ground arith

-- While the node counts no transaction, the third one has the nonce of the first.
next_nonce-third :
    (last count : ℕ)
    → count ≢ last
    → next_nonce (next_nonce (next_nonce last count) count) count ≡ count
unfolding next_nonce
next_nonce-third last count h = ground arith

module _ {W : Type 0} where
  abbrev promise_of : Result (Handled W) × World W → Option (Pending W)
  promise_of (ok handled, w) = handled.ticket_promise
  promise_of (throw x, w) = none

  same_nonce :
      {A : Type 0} {r : Result A × World W} {q : Result A} {w' : World W}
      → r ≡ (q, w')
      → w'.nonce ≡ r.1.nonce
  same_nonce {A} e = ap (λ (p : Result A × World W). p.1.nonce) (sym e)

  require-nonce : (b : Bool) (x : Exception) (w : World W) → (require b x w).1.nonce ≡ w.nonce
  require-nonce true x w = refl
  require-nonce false x w = refl

  or_ask-nonce :
      (v : Value) (m : Run W Value) (w : World W) → (or_ask v (calling m) w).1.nonce ≡ w.nonce
  unfolding or_ask
  or_ask-nonce v m w = ground arith

  -- What a call that returned has asked of the node.
  on_node-ok :
      {A : Type 0} (r : Result A × W) (w : World W) {a : A} {w' : World W}
      → on_node r w ≡ (ok a, w')
      → (r ≡ (ok a, w'.node)) × (w'.nonce ≡ w.nonce)
  on_node-ok {A} (ok b, n) w h = (ap (λ (q : Result A × World W). (q.0, q.1.node)) h, same_nonce h)
  on_node-ok (throw x, n) w h = cc

module _ {W : Type 0} (node : Node W) (chain_id : ℕ) where
  keep_nonce-sent :
      (nonce : ℕ) (r : Result Text) (w : World W) {p : Pending W} {w' : World W}
      → keep_nonce node chain_id nonce r w ≡ (ok p, w')
      → (serialized : Text) × (r ≡ ok serialized)
        × (node.send_signed serialized w.node ≡ (ok p, w'.node))
        × (w'.nonce ≡ nonce)
  keep_nonce-sent nonce (throw x) w h = cc
  keep_nonce-sent nonce (ok serialized) w h =
      let (sent, same) =
        on_node-ok (node.send_signed serialized w.node) (record w { nonce = nonce }) h in
      (serialized, refl, sent, same)

  -- Options without a nonce leave that of the transaction.
  raw_tx-nonce :
      (nonce : ℕ) (target : Target) (call_data : Value) (opts : Fields)
      → has_field (codes "nonce") opts ≡ false
      → get (codes "nonce") (raw_tx node chain_id nonce target call_data opts)
        ≡ node.to_hex (num nonce)
  unfolding raw_tx get text_eq
  raw_tx-nonce nonce target call_data opts h = get-assign_other (codes "nonce") _ opts h

  sign_with-Signed :
      (target : Target) (call_data : Value) (opts wallet : Fields) (from : Value) (count : ℕ)
      (asked : W) (w : World W) {p : Pending W} {w' : World W}
      → has_field (codes "nonce") opts ≡ false
      → node.get_transaction_count from asked ≡ (ok count, w.node)
      → sign_with node chain_id target call_data opts wallet count w ≡ (ok p, w')
      → Signed node from w.nonce p w'
  unfolding sign_with
  sign_with-Signed target call_data opts wallet from count asked w free counted h =
      let nonce = next_nonce w.nonce count in
      let (serialized, signed, sent, kept) = keep_nonce-sent nonce _ w h in
      record {
        count = count;
        nonce = nonce;
        asked = asked;
        counted = w.node;
        tx = raw_tx node chain_id nonce target call_data opts;
        key = _;
        serialized = serialized;
        counts = counted;
        advances = next_nonce-Advances w.nonce count;
        has_nonce = raw_tx-nonce nonce target call_data opts free;
        signs = signed;
        sends = sent;
        keeps = kept;
      }

  sign_and_send-Signed :
      (target : Target) (opts wallet : Fields) (w : World W) {p : Pending W} {w' : World W}
      → has_field (codes "nonce") opts ≡ false
      → sign_and_send node chain_id target opts wallet w ≡ (ok p, w')
      → Signed node (get (codes "from") opts) w.nonce p w'
  unfolding sign_and_send text_eq
  sign_and_send-Signed target opts wallet w free h =
      let from = get (codes "from") opts in
      let price = get (codes "gasPrice") opts in
      let (gas_price, w1, e1, h1) = continue-ok _ (or_ask price (calling node.get_gas_price) w) h in
      let priced = put (codes "gasPrice") (node.to_hex gas_price) opts in
      let limit = get (codes "gas") priced in
      let ask = node.estimate_gas target from (node.to_hex (num 0)) in
      let (gas, w2, e2, h2) = continue-ok _ (or_ask limit (calling ask) w1) h1 in
      let (call_data, w3, e3, h3) = continue-ok _ (calling (node.encode_abi target) w2) h2 in
      let (count, w4, e4, h4) = continue-ok _ (calling (node.get_transaction_count from) w3) h3 in
      let (counted, kept4) = on_node-ok (node.get_transaction_count from w3.node) w3 e4 in
      let kept : w4.nonce ≡ w.nonce =
        kept4
        ∙ same_nonce e3
        ∙ same_nonce e2
        ∙ or_ask-nonce limit ask w1
        ∙ same_nonce e1
        ∙ or_ask-nonce price node.get_gas_price w in
      let free' : has_field (codes "nonce") (put (codes "gas") gas priced) ≡ false =
        has_field-put (codes "nonce") (codes "gas") gas priced
        ∙ has_field-put (codes "nonce") (codes "gasPrice") (node.to_hex gas_price) opts
        ∙ free in
      rw kept at (
        sign_with-Signed target call_data (put (codes "gas") gas priced) wallet from count w3.node
          w4 free' counted h4)

  send_itself-none :
      (target : Target) (args : List Value) (w : World W) {p : Pending W} {w' : World W}
      → send_itself node chain_id target args w ≡ (ok (promised p), w')
      → ⊥
  unfolding send_itself
  send_itself-none target args w h =
      let (receipt, w1, e, rest) = continue-ok _ (calling (node.send target args) w) h in
      cc (ap promise_of rest)

  send_here-Signed :
      (target : Target) (opts wallet : Fields) (w : World W) {p : Pending W} {w' : World W}
      → has_field (codes "nonce") opts ≡ false
      → send_here node chain_id target opts wallet w ≡ (ok (promised p), w')
      → Signed node (get (codes "from") opts) w.nonce p w'
  unfolding send_here
  send_here-Signed target opts wallet w {p} {w'} free h =
      let unlocked = truthy (get (codes "privateKey") wallet) in
      let (u, w1, e1, h1) =
        continue-ok _ (require unlocked (error "the wallet provided is not unlocked") w) h in
      let (promise, w2, e2, h2) =
        continue-ok _ (sign_and_send node chain_id target opts wallet w1) h1 in
      let kept : w1.nonce ≡ w.nonce =
        same_nonce e1 ∙ require-nonce unlocked (error "the wallet provided is not unlocked") w in
      let sent : sign_and_send node chain_id target opts wallet w1 ≡ (ok p, w') =
        cc (e2, ap promise_of h2, ap (λ (r : Result (Handled W) × World W). r.1) h2) in
      rw kept at (sign_and_send-Signed target opts wallet w1 free sent)

  chosen-Signed :
      (target : Target) (args : List Value) (opts wallet : Fields) (itself : Bool) (w : World W)
      {p : Pending W} {w' : World W}
      → has_field (codes "nonce") opts ≡ false
      → (if itself
            then send_itself node chain_id target args
            else send_here node chain_id target opts wallet)
          w
        ≡ (ok (promised p), w')
      → Signed node (get (codes "from") opts) w.nonce p w'
  chosen-Signed target args opts wallet true w free h = absurd (send_itself-none target args w h)
  chosen-Signed target args opts wallet false w free h =
      send_here-Signed target opts wallet w free h

  send_signed_transaction-Signed :
      (target : Target) (args : List Value) (given : Option Fields) (w : World W) {p : Pending W}
      {w' : World W}
      → has_field (codes "nonce") (options_of args) ≡ false
      → send_signed_transaction node chain_id target args given w ≡ (ok (promised p), w')
      → Signed node (get (codes "from") (options_of args)) w.nonce p w'
  unfolding send_signed_transaction
  send_signed_transaction-Signed target args given w free h =
      let opts = options_of args in
      let from = get (codes "from") opts in
      let (u, w1, e1, h1) =
        continue-ok _ (require (truthy from) (error "src address is not defined") w) h in
      let wallet = wallet_used given w1.wallet in
      let (u', w2, e2, h2) =
        continue-ok _
          (require (strict_eq (get (codes "publicKey") wallet) from)
            (error "provided wallet does not contain requested address") w1)
          h1 in
      let kept2 : w2.nonce ≡ w.nonce =
        same_nonce e2
        ∙ require-nonce (strict_eq (get (codes "publicKey") wallet) from) _ w1
        ∙ same_nonce e1
        ∙ require-nonce (truthy from) _ w in
      rw kept2 at (chosen-Signed target args opts wallet (signs_itself wallet) w2 free h2)

  -- Where a ticket that sends, whose options have no nonce, is handled to a promise, the node was asked
  -- for the count of the sender and answered it. The nonce is this count, or the next number if the
  -- count is the nonce that was kept before. A transaction that has this nonce was signed; given to the
  -- node that had answered, what was signed led to the promise; and the nonce is the one kept now.
  pub handle_ticket-Signed :
      (t : Ticket) (w : World W) {p : Pending W} {w' : World W}
      → t.method ≡ codes "send"
      → has_field (codes "nonce") (options_of t.args) ≡ false
      → handle_ticket node chain_id t w ≡ (ok (promised p), w')
      → Signed node (get (codes "from") (options_of t.args)) w.nonce p w'
  unfolding handle_ticket text_eq
  handle_ticket-Signed t w send free h =
      send_signed_transaction-Signed (target_of t) t.args t.wallet w free (rw send at h)
