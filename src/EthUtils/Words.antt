-- ===== src/EthUtils/Words.antt =====
-- The words of a contract's data are read back as they were written.
use identity_wallet.Common.{
  ℕ, zero, suc, ◌-◌, ◌*◌, ◌≤◌, false, some, List, [], ◌∷◌, ◌++◌, map, leb, length, ok, ◌==◌, nat_eq,
  ◌≡◌, refl, ap, subst, ◌∙◌, arith, All, All-append, length-append, Bool-cases, inl, inr,
}
use identity_wallet.Schema.Text.{Text, codes}
use identity_wallet.EthUtils.{
  repeated, pad_left, trim_zeros, remove_prefix, split_word, words, significant,
  contract_out_to_array, padded_words,
}

-- A text of at most 64 characters, none of them an `x`.
abbrev NoX : Text → Type 0
NoX = All (λ c. (c == b'x') ≡ false)

abbrev pub IsWord : Text → Type 0
IsWord v = (length v ≤ 64) × NoX v

length-repeated : (n : ℕ) → length (repeated n (codes "0")) ≡ n
unfolding repeated
length-repeated zero = refl
length-repeated (suc n) = omega (arith, length-repeated n)

repeated-NoX : (n : ℕ) → NoX (repeated n (codes "0"))
unfolding repeated nat_eq
repeated-NoX zero = tt
repeated-NoX (suc n) = (refl, repeated-NoX n)

trim_zeros-repeated : (n : ℕ) (v : Text) → trim_zeros (repeated n (codes "0") ++ v) ≡ trim_zeros v
unfolding repeated trim_zeros
trim_zeros-repeated zero v = refl
trim_zeros-repeated (suc n) v = ground (arith, trim_zeros-repeated n v)

abbrev pad : Text → Text
pad v = pad_left v 64 (codes "0")

length-pad_left : (v : Text) → length v ≤ 64 → length (pad v) ≡ 64
unfolding pad_left
length-pad_left v h =
    ground (
      arith,
      length-append (repeated (64 - length v) (codes "0")) v,
      length-repeated (64 - length v),
    )

pad_left-NoX : (v : Text) → NoX v → NoX (pad v)
unfolding pad_left
pad_left-NoX v h = elim (Bool-cases (leb 64 (length v))) [
  | inl long ↦ rw long h
  | inr short ↦ rw short (
      All-append (λ c. (c == b'x') ≡ false) (repeated (64 - length v) (codes "0")) v
        (repeated-NoX (64 - length v)) h)
]

significant-pad_left : (v : Text) → significant (pad v) ≡ significant v
unfolding pad_left significant
significant-pad_left v = elim (Bool-cases (leb 64 (length v))) [
  | inl long ↦ rw long refl
  | inr short ↦ rw (short, trim_zeros-repeated (64 - length v) v, significant) refl
]

split_word-append : (w s : Text) → split_word (length w) (w ++ s) ≡ some (w, s)
unfolding split_word
split_word-append [] s = refl
split_word-append (c ∷ w) s = rw (split_word-append w s) refl

split_word_exact : (n : ℕ) (w s : Text) → length w ≡ n → split_word n (w ++ s) ≡ some (w, s)
split_word_exact n w s h =
    subst (λ k. split_word k (w ++ s) ≡ some (w, s)) h (split_word-append w s)

words_step : (f : ℕ) (w s : Text) → length w ≡ 64 → words (suc f) (w ++ s) ≡ w ∷ words f s
unfolding words
words_step f w s h = rw (split_word_exact 64 w s h, words) refl

remove_prefix_idle : (s : Text) → NoX s → remove_prefix s ≡ s
unfolding remove_prefix
remove_prefix_idle [] h = refl
remove_prefix_idle (c ∷ []) h = refl
remove_prefix_idle (c ∷ d ∷ s) h = ground (arith, remove_prefix_idle (d ∷ s) h.1)

padded_words-NoX : (vs : List Text) → All IsWord vs → NoX (padded_words vs)
unfolding padded_words
padded_words-NoX [] h = tt
padded_words-NoX (v ∷ vs) ((short, no_x), h) =
    All-append (λ c. (c == b'x') ≡ false) (pad v) (padded_words vs) (pad_left-NoX v no_x)
      (padded_words-NoX vs h)

length-padded_words : (vs : List Text) → All IsWord vs → length (padded_words vs) ≡ 64 * length vs
unfolding padded_words
length-padded_words [] h = refl
length-padded_words (v ∷ vs) ((short, no_x), h) = omega (
  arith,
  length-append (pad v) (padded_words vs),
  length-pad_left v short,
  length-padded_words vs h,
)

words-padded_words :
    (f : ℕ) (vs : List Text)
    → All IsWord vs
    → length vs ≤ f
    → words f (padded_words vs) ≡ map pad vs
unfolding words padded_words
words-padded_words zero [] h e = refl
words-padded_words zero (v ∷ vs) h e = absurd (omega arith)
words-padded_words (suc f) [] h e = refl
words-padded_words (suc f) (v ∷ vs) ((short, no_x), h) e =
    words_step f (pad v) (padded_words vs) (length-pad_left v short)
    ∙ ap (λ ws. pad v ∷ ws) (words-padded_words f vs h (omega arith))

map-significant-pad : (vs : List Text) → map significant (map pad vs) ≡ map significant vs
map-significant-pad [] = refl
map-significant-pad (v ∷ vs) = rw (significant-pad_left v, map-significant-pad vs) refl

-- Some words of at most 64 hexadecimal digits, each padded to 64, are read back in order, without
-- their leading zeros.
pub contract_out_to_array-padded_words :
    (v : Text) (vs : List Text)
    → IsWord v
    → All IsWord vs
    → contract_out_to_array (padded_words (v ∷ vs)) ≡ ok (map significant (v ∷ vs))
unfolding contract_out_to_array
contract_out_to_array-padded_words v vs h k =
    let all : All IsWord (v ∷ vs) = (h, k) in
    let same = remove_prefix_idle (padded_words (v ∷ vs)) (padded_words-NoX (v ∷ vs) all) in
    let enough : length (v ∷ vs) ≤ length (padded_words (v ∷ vs)) =
      omega (arith, length-padded_words (v ∷ vs) all) in
    let read = words-padded_words (length (padded_words (v ∷ vs))) (v ∷ vs) all enough in
    rw (same, read, contract_out_to_array) (ap ok (map-significant-pad (v ∷ vs)))
