-- ===== src/EthUtils/Tests.antt =====
-- Hexadecimal formats on concrete texts.
use identity_wallet.Common.{[], ◌∷◌, ok, ◌≡◌, refl, map, nat_eq}
use identity_wallet.Schema.Text.{codes, text_eq}
use identity_wallet.EthUtils.{
  contract_out_to_array, padded_words, sanitize_hex, trim_hex_zero, get_naked_address,
}

contract_out_to_array_test :
    contract_out_to_array (padded_words (codes "0a1" ∷ codes "0" ∷ []))
    ≡ ok (codes "a1" ∷ codes "0" ∷ [])
unfolding contract_out_to_array padded_words nat_eq
contract_out_to_array_test = refl

sanitize_hex_test :
    map sanitize_hex (codes "0xabc" ∷ codes "ab" ∷ codes "0x" ∷ [])
    ≡ codes "0x0abc" ∷ codes "0xab" ∷ [] ∷ []
unfolding sanitize_hex nat_eq
sanitize_hex_test = refl

trim_hex_zero_test :
    map trim_hex_zero (codes "0x0012" ∷ codes "0x00" ∷ []) ≡ codes "0x12" ∷ codes "0x0" ∷ []
unfolding trim_hex_zero nat_eq text_eq
trim_hex_zero_test = refl

get_naked_address_test : get_naked_address (codes "0xABcd") ≡ codes "abcd"
unfolding get_naked_address nat_eq
get_naked_address_test = refl
