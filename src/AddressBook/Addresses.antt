-- ===== src/AddressBook/Addresses.antt =====
-- What validating an address tells.
use identity_wallet.Common.{
  ◌≡◌, refl, sym, ◌∙◌, ◌↔◌, ◌⊎◌, Bool, true, false, not, List, [], ◌∷◌, map, arith, if◌then◌else◌,
  ◌==◌, filter, contains, Bool-cases, inl, inr,
}
use identity_wallet.Schema.Text.{Text, text_eq}
use identity_wallet.AddressBook.State.{Entry, address_book_reducer}
use identity_wallet.AddressBook.Operations.{
  World, is_empty, Web3Utils, is_valid_address, invalid_address, own_address, address_used,
  validate_address,
}

abbrev pub addresses : List Entry → List Text
addresses = map (λ e. e.address)

is_empty-addresses :
    (address : Text) (es : List Entry)
    → is_empty (filter (λ e. e.address == address) es) ≡ not (contains (addresses es) address)
is_empty-addresses address [] = refl
is_empty-addresses address (e ∷ es) = ground (arith, is_empty-addresses address es)

-- The message that stands, by the three tests.
abbrev message : Bool → Bool → Bool → Text
message used own valid =
    if used
    then address_used
    else if own
    then own_address
    else if valid
    then []
    else invalid_address

module _ {D : Type 0} (utils : Web3Utils) (address : Text) (w : World D) where
  abbrev used : Bool
  used = contains (addresses w.state.entries) address

  address_error-validate :
      (validate_address utils address w).state.address_error
      ≡ message used (w.public_key == address) (is_valid_address utils address)
  unfolding validate_address address_book_reducer
  address_error-validate =
      let free = is_empty-addresses address w.state.entries in
      elim (Bool-cases used) [
        | inl known ↦ simp (free, known)
        | inr unknown ↦ elim (Bool-cases (w.public_key == address)) [
          | inl own ↦ simp (free, unknown, own)
          | inr other ↦ elim (Bool-cases (is_valid_address utils address)) [
            | inl valid ↦ simp (free, unknown, other, valid)
            | inr bad ↦ simp (free, unknown, other, bad)
          ]
        ]
      ]

  -- Validating an address leaves no error exactly if web3 takes it for an address, it is not the
  -- wallet's own, and no entry of the store has it.
  pub validate_address-accepts : ((validate_address utils address w).state.address_error ≡ []) ↔ (
      (is_valid_address utils address ≡ true)
      × ((w.public_key == address) ≡ false)
      × (contains (addresses w.state.entries) address ≡ false))
  validate_address-accepts = (
    (λ e.
        tests (sym address_error-validate ∙ e) (Bool-cases used)
          (Bool-cases (w.public_key == address)) (Bool-cases (is_valid_address utils address))),
    λ (valid, other, unknown). address_error-validate ∙ simp (unknown, other, valid),
  )
    where
      tests :
          message used (w.public_key == address) (is_valid_address utils address) ≡ []
          → (used ≡ true) ⊎ (used ≡ false)
          → ((w.public_key == address) ≡ true) ⊎ ((w.public_key == address) ≡ false)
          → (is_valid_address utils address ≡ true) ⊎ (is_valid_address utils address ≡ false)
          → (is_valid_address utils address ≡ true)
            × ((w.public_key == address) ≡ false)
            × (used ≡ false)
      tests e (inl known) own valid = cc (rw known at e)
      tests e (inr unknown) (inl own) valid = cc (rw (unknown, own) at e)
      tests e (inr unknown) (inr other) (inl valid) = (valid, other, unknown)
      tests e (inr unknown) (inr other) (inr bad) = cc (rw (unknown, other, bad) at e)
