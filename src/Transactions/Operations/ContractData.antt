-- ===== src/Transactions/Operations/ContractData.antt =====
-- The data of a transfer holds the receiver and the amount.
use identity_wallet.Common.{[], ◌∷◌, ◌++◌, ok, ◌≡◌, ap, append-nil, sym}
use identity_wallet.Schema.Text.{Text, codes}
use identity_wallet.Schema.Value.{Value}
use identity_wallet.EthUtils.{
  get_naked_address, significant, contract_out_to_array, padded_words, pad_left,
}
use identity_wallet.EthUtils.Words.{IsWord, contract_out_to_array-padded_words}
use identity_wallet.Transactions.Operations.{transfer_hex, generate_contract_data}

-- After the selector of `transfer`, the data of a transfer are two words, which read back as the
-- receiver's address, without `0x` and without leading zeros, and as the amount: of any address and
-- amount that have at most 64 digits, none of them an `x`.
pub generate_contract_data-words :
    (to_hex : Value → Value → Text) (to_address : Text) (value decimal : Value)
    → IsWord (get_naked_address to_address)
    → IsWord (to_hex value decimal)
    → (words : Text) × (generate_contract_data to_hex to_address value decimal
        ≡ transfer_hex ++ words)
      × (contract_out_to_array words
          ≡ ok (
              significant (get_naked_address to_address) ∷ significant (to_hex value decimal) ∷ []))
unfolding generate_contract_data padded_words pad_left
generate_contract_data-words to_hex to_address value decimal h k = (
  padded_words (get_naked_address to_address ∷ to_hex value decimal ∷ []),
  ap (λ (t : Text). transfer_hex ++ (pad_left (get_naked_address to_address) 64 (codes "0") ++ t))
      (sym (append-nil (pad_left (to_hex value decimal) 64 (codes "0")))),
  contract_out_to_array-padded_words (get_naked_address to_address) (to_hex value decimal ∷ []) h
      (k, tt),
)
