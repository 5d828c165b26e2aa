-- ===== src/Transactions/Tests.antt =====
-- Sends of a transaction, event by event.
use identity_wallet.Common.{ℕ, suc, true, [], ◌∷◌, ◌++◌, ok, ◌≡◌, refl, nat_eq, arith}
use identity_wallet.Schema.Text.{Text, codes, text_eq}
use identity_wallet.Schema.Value.{num}
use identity_wallet.EthUtils.{contract_out_to_array, significant, get_naked_address}
use identity_wallet.Transactions.State.{initial_state}
use identity_wallet.Transactions.Operations.{Services, World, transfer_hex, generate_contract_data}
use identity_wallet.Transactions.Operations.ContractData.{generate_contract_data-words}
use identity_wallet.Transactions.Sending.{
  transaction_hash, receipt, timeout, confirm, start, run, sets_timeout,
}
use identity_wallet.Transactions.Sending.Timeouts.{times_out, hash_of, run-listening, run-times_out}

abbrev services : Services ℕ
services = record {
  is_valid_address = λ a. ok true;
  get_transaction_count = λ k n. (ok (num n), n);
  get_gas_limit = λ c a v k n. (ok (num 60000), n);
  fee = λ p l. ok p;
  unit_to_unit = λ v f t. v;
  to_hex = λ v d. codes "de0b";
  update_wallet_with_balance = λ n. (ok tt, suc n);
  update_wallet_tokens_with_balance = λ n. (ok tt, suc n);
  add_or_update = λ h s t n. suc n;
}

abbrev world : World ℕ
world = record {
  services = 0;
  transaction = record initial_state {
    crypto_currency = codes "ETH";
    address = codes "0x22";
    amount = num 1;
  };
  tokens = [];
  public_key = codes "0x11";
  wallet_type = codes "trezor";
  average = num 5;
  routes = [];
}

run-listening_example :
    (run services confirm
      (receipt ∷ transaction_hash (codes "0x1") ∷ timeout ∷ [])
      (start services confirm world)).listening
    ≡ true
unfolding times_out sets_timeout text_eq
run-listening_example =
    run-listening services confirm (receipt ∷ transaction_hash (codes "0x1") ∷ timeout ∷ []) world

run-times_out_example :
    (hash_of (run services confirm (timeout ∷ []) (start services confirm world)).world ≡ [])
    × (run services confirm
          (timeout ∷ transaction_hash (codes "0x1") ∷ [])
          (start services confirm world)
        ≡ run services confirm (timeout ∷ []) (start services confirm world))
unfolding times_out sets_timeout text_eq
run-times_out_example =
    run-times_out services confirm (timeout ∷ []) (transaction_hash (codes "0x1") ∷ []) world refl

generate_contract_data-words_example :
    (words : Text) × (generate_contract_data (λ v d. codes "de0b") (codes "0xAb") (num 1) (num 18)
      ≡ transfer_hex ++ words)
    × (contract_out_to_array words ≡ ok (codes "ab" ∷ codes "de0b" ∷ []))
unfolding get_naked_address significant nat_eq
generate_contract_data-words_example =
    generate_contract_data-words (λ v d. codes "de0b") (codes "0xAb") (num 1) (num 18)
      (omega arith, (refl, (refl, tt))) (omega arith, (refl, (refl, (refl, (refl, tt)))))
