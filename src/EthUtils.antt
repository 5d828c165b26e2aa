-- ===== src/EthUtils.antt =====
-- Hexadecimal formats: src/common/utils/eth-utils.js, but for its calls of web3 and of BigNumber.
pub mod Words
mod Tests
use identity_wallet.Common.{
  ℕ, zero, suc, ◌+◌, ◌-◌, ◌%◌, Bool, true, false, not, ◌&&◌, ◌||◌, Option, none, some, List, [],
  ◌∷◌, ◌++◌, map, if◌then◌else◌, ltb, leb, length, Result, ok, throw, type_error, ◌==◌, nat_eq,
}
use identity_wallet.Schema.Text.{Text, codes, text_eq}

-- `new Array(n + 1).join(z)`
unfoldable pub repeated : ℕ → Text → Text
repeated zero z = []
repeated (suc n) z = z ++ repeated n z

-- `padLeft`, with `z` for what is missing: `'0'` unless another is given.
unfoldable pub pad_left : Text → ℕ → Text → Text
unfolding repeated
pad_left n width z = if leb width (length n) then n else repeated (width - length n) z ++ n

unfoldable pub pad_left_even : Text → Text
pad_left_even hex = if length hex % 2 == 0 then hex else b'0' ∷ hex

-- `hex.substring(0, 2) === '0x' ? hex.substring(2) : hex`
unfoldable pub strip_prefix : Text → Text
strip_prefix (c ∷ d ∷ s) = if c == b'0' && d == b'x' then s else c ∷ d ∷ s
strip_prefix s = s

unfoldable pub sanitize_hex : Text → Text
unfolding strip_prefix pad_left_even
sanitize_hex hex = elim (strip_prefix hex) [ [] ↦ [] | c ∷ s ↦ codes "0x" ++ pad_left_even (c ∷ s) ]

-- `hex.replace(/^0+/, '')`
unfoldable pub trim_zeros : Text → Text
trim_zeros [] = []
trim_zeros (c ∷ s) = let rest = trim_zeros s in if c == b'0' then rest else c ∷ s

-- `hex.substring(2)`
unfoldable pub skip_two : Text → Text
skip_two (c ∷ d ∷ s) = s
skip_two s = []

unfoldable pub trim_hex_zero : Text → Text
unfolding sanitize_hex trim_zeros skip_two
trim_hex_zero hex =
    if hex == codes "0x00" || hex == codes "0x0"
    then codes "0x0"
    else codes "0x" ++ trim_zeros (skip_two (sanitize_hex hex))

-- `c.toUpperCase()` and `c.toLowerCase()` in ASCII.
unfoldable pub upper : ℕ → ℕ
upper c = if leb b'a' c && leb c b'z' then c - 32 else c

unfoldable pub lower : ℕ → ℕ
lower c = if leb b'A' c && leb c b'Z' then c + 32 else c

abbrev pub is_upper_hex : ℕ → Bool
is_upper_hex c = (leb b'0' c && leb c b'9') || (leb b'A' c && leb c b'F')

-- `/^[0-9A-F]+$/` of what is not empty.
unfoldable pub all_upper_hex : Text → Bool
all_upper_hex [] = true
all_upper_hex (c ∷ s) = is_upper_hex c && all_upper_hex s

unfoldable pub validate_hex_string : Text → Bool
unfolding strip_prefix upper all_upper_hex
validate_hex_string [] = true
validate_hex_string (c ∷ s) = elim (map upper (strip_prefix (c ∷ s))) [
  | [] ↦ false
  | d ∷ t ↦ all_upper_hex (d ∷ t)
]

-- `s.replace('0x', '')`, the first occurrence.
unfoldable pub remove_prefix : Text → Text
remove_prefix [] = []
remove_prefix (c ∷ []) = c ∷ []
remove_prefix (c ∷ d ∷ s) =
    let rest = remove_prefix (d ∷ s) in if c == b'0' && d == b'x' then s else c ∷ rest

unfoldable pub get_naked_address : Text → Text
unfolding lower remove_prefix
get_naked_address address = remove_prefix (map lower address)

-- The first `n` characters and the rest, if there are that many.
unfoldable pub split_word : ℕ → Text → Option (Text × Text)
split_word zero s = some ([], s)
split_word (suc n) [] = none
split_word (suc n) (c ∷ s) = elim (split_word n s) [
  | none ↦ none
  | some (word, rest) ↦ some (c ∷ word, rest)
]

-- `hex.match(/.{64}/g)`, by fuel: no more words than characters.
unfoldable pub words : ℕ → Text → List Text
unfolding split_word
words zero s = []
words (suc n) s = elim (split_word 64 s) [ none ↦ [] | some (word, rest) ↦ word ∷ words n rest ]

-- A word without leading zeros; `'0'` if nothing is left.
unfoldable pub significant : Text → Text
unfolding trim_zeros
significant word = elim (trim_zeros word) [ [] ↦ codes "0" | c ∷ s ↦ c ∷ s ]

-- `null`, which has no length, stands for no match.
unfoldable pub contract_out_to_array : Text → Result (List Text)
unfolding remove_prefix words significant
contract_out_to_array hex =
    let hex' = remove_prefix hex in
    elim (words (length hex') hex') [
      | [] ↦ throw type_error
      | w ∷ ws ↦ ok (map significant (w ∷ ws))
    ]

-- `val` of `getDataObj`
unfoldable pub padded_words : List Text → Text
unfolding pad_left
padded_words [] = []
padded_words (v ∷ vs) = pad_left v 64 (codes "0") ++ padded_words vs

pub record DataObj : Type 0 where
  pub to : Text
  pub calldata : Text

unfoldable pub get_data_obj : Text → Text → List Text → DataObj
unfolding padded_words
get_data_obj to func vals = record { to = to; calldata = func ++ padded_words vals }
