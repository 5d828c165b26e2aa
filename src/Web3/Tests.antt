-- ===== src/Web3/Tests.antt =====
-- Runs of tickets at a node that always counts the same number of transactions.
use identity_wallet.Common.{
  ℕ, true, none, some, [], ◌∷◌, ◌≡◌, refl, ok, throw, error, type_error, nat_eq,
}
use identity_wallet.Schema.Text.{Text, codes, text_eq}
use identity_wallet.Schema.Value.{
  num, str, bool, obj, Fields, end, field, get, put, has_field, to_text, strict_eq, truthy,
}
use identity_wallet.Staking.Chain.{pure, fail}
use identity_wallet.Web3.Sending.{
  Ticket, Node, World, promised, handle_ticket, wait_for_ticket, options_of,
}
use identity_wallet.Web3.Sending.Nonces.{Signed, handle_ticket-Signed}

-- The world is the number that the node counts.
abbrev node : Node ℕ
node = record {
  invoke = λ web3 target method args. pure (λ name. fail type_error);
  send = λ target args. pure (obj (field (codes "status") (bool true) end));
  send_signed = λ raw. pure (λ name. pure (str raw));
  get_gas_price = pure (num 20);
  estimate_gas = λ target from value. pure (num 21000);
  encode_abi = λ target. pure (str (codes "0xa9"));
  get_transaction_count = λ address w. (ok w, w);
  to_hex = λ v. v;
  sign = λ tx key. ok key;
}

abbrev ticket : Ticket
ticket = record {
  contract_address = some (codes "0xcc");
  contract_method = some (codes "transfer");
  method = codes "send";
  custom_web3 = none;
  custom_abi = none;
  contract_method_args = num 1 ∷ [];
  wallet = none;
  args = obj (field (codes "from") (str (codes "0xab")) end) ∷ [];
  once_listener_name = none;
}

abbrev wallet_with : Text → Fields
wallet_with profile =
    field (codes "publicKey") (str (codes "0xab"))
      (field (codes "profile") (str profile) (field (codes "privateKey") (str (codes "0x12")) end))

abbrev world : Text → ℕ → World ℕ
world profile count = record { node = count; wallet = wallet_with profile; nonce = 0 }

-- A Ledger has sent the transaction, and the ticket fails all the same.
hardware_test :
    wait_for_ticket node 1 ticket (world (codes "ledger") 5)
    ≡ (throw (error "Failed to process ticket"), world (codes "ledger") 5)
unfolding wait_for_ticket get strict_eq truthy text_eq
hardware_test = refl

sent_here : handle_ticket node 1 ticket (world (codes "local") 5) ≡ (
  ok (promised (λ name. pure (str (codes "12")))),
  record (world (codes "local") 5) { nonce = 5 },
)
unfolding handle_ticket get put to_text strict_eq truthy text_eq nat_eq
sent_here = refl

handle_ticket-Signed_example :
    Signed node
      (get (codes "from") (options_of ticket.args))
      0
      (λ name. pure (str (codes "12")))
      (record (world (codes "local") 5) { nonce = 5 })
unfolding options_of has_field text_eq
handle_ticket-Signed_example =
    handle_ticket-Signed node 1 ticket (world (codes "local") 5) refl refl sent_here

abbrev after : World ℕ → World ℕ
after w = (wait_for_ticket node 1 ticket w).1

-- The nonces of three transactions that the node does not count yet: the third is the first again.
nonces_test :
    (after (world (codes "local") 5)).nonce
      ∷ (after (after (world (codes "local") 5))).nonce
      ∷ (after (after (after (world (codes "local") 5)))).nonce
      ∷ []
    ≡ 5 ∷ 6 ∷ 5 ∷ []
unfolding wait_for_ticket get put strict_eq truthy text_eq nat_eq
nonces_test = refl

-- The first transaction of an account.
first_nonce_test : (after (world (codes "local") 0)).nonce ≡ 1
unfolding wait_for_ticket get put strict_eq truthy text_eq nat_eq
first_nonce_test = refl
