-- ===== src/AddressBook/Operations.antt =====
-- The operations of src/common/address-book/operations.js, with `isValidAddress` of
-- src/main/address-book/address-book-service.js.
use identity_wallet.Common.{
  ℕ, Bool, true, false, not, ◌&&◌, some, List, [], ◌∷◌, leb, if◌then◌else◌, ◌==◌, filter, length,
  Result, ok, throw, option_eq,
}
use identity_wallet.Schema.Text.{Text, codes, text_eq}
use identity_wallet.AddressBook.State.{Entry, State, Action, address_book_reducer, get_addresses}

-- The table behind `AddressBookService`.
pub record Service (D : Type 0) : Type 0 where
  pub add_entry : Entry → D → Entry × D
  pub edit_entry : Entry → D → Entry × D
  pub delete_entry_by_id : ℕ → D → D
  pub load_entries_by_wallet_id : ℕ → D → List Entry

-- The table, the store, and the wallet in it.
pub record World (D : Type 0) : Type 0 where
  pub table : D
  pub state : State
  pub wallet_id : ℕ
  pub public_key : Text

abbrev pub dispatch : {D : Type 0} → Action → World D → World D
dispatch a w = record w { state = address_book_reducer w.state a }

module _ {D : Type 0} (service : Service D) where
  unfoldable pub load_address_book : World D → World D
  load_address_book w =
      dispatch (Action.entries_load (service.load_entries_by_wallet_id w.wallet_id w.table)) w

  unfoldable pub add_address_book_entry : Entry → World D → World D
  add_address_book_entry e w =
      let (created, d) = service.add_entry (record e { wallet_id = some w.wallet_id }) w.table in
      dispatch (Action.entry_add created) (record w { table = d })

  unfoldable pub edit_address_book_entry : Entry → World D → World D
  edit_address_book_entry e w =
      let (edited, d) = service.edit_entry e w.table in
      dispatch (Action.entry_edit edited) (record w { table = d })

  unfoldable pub delete_address_book_entry : ℕ → World D → World D
  delete_address_book_entry id w =
      dispatch (Action.entry_delete id) (record w { table = service.delete_entry_by_id id w.table })

-- `label && label.length <= 25`
abbrev pub is_short : Text → Bool
is_short [] = false
is_short (c ∷ s) = leb (length (c ∷ s)) 25

abbrev pub is_empty : List Entry → Bool
is_empty [] = true
is_empty (e ∷ es) = false

abbrev pub too_long : Text
too_long = codes "Please enter 25 characters or less."

abbrev pub label_used : Text
label_used = codes "Label is already being used."

module _ {D : Type 0} where
  unfoldable pub reset_add : World D → World D
  reset_add w = dispatch (Action.address_error_set []) (dispatch (Action.label_error_set []) w)

  unfoldable pub reset_edit : World D → World D
  reset_edit w = dispatch (Action.label_error_set []) w

  -- `if (test) { dispatch(action); }`
  abbrev pub dispatch_if : Bool → Action → World D → World D
  dispatch_if test a w = if test then dispatch a w else w

  unfoldable pub validate_label : Text → World D → World D
  validate_label label w =
      let short = is_short label in
      let free = is_empty (filter (λ e. e.label == label) (get_addresses w.state)) in
      dispatch_if (not free) (Action.label_error_set label_used) (
        dispatch_if (not short) (Action.label_error_set too_long)
          (dispatch_if (short && free) (Action.label_error_set []) w))

-- What `web3.utils` gives.
pub record Web3Utils : Type 0 where
  pub to_checksum_address : Text → Result Text
  pub is_hex : Text → Bool
  pub is_address : Text → Bool

-- `isValidAddress`: an exception is caught.
unfoldable pub is_valid_address : Web3Utils → Text → Bool
is_valid_address utils address = elim (utils.to_checksum_address address) [
  | ok checksum ↦ utils.is_hex address && utils.is_address checksum
  | throw x ↦ false
]

abbrev pub invalid_address : Text
invalid_address = codes "Invalid ETH address."

abbrev pub own_address : Text
own_address = codes "Sorry, you can't add your current address."

abbrev pub address_used : Text
address_used = codes "Address is already being used."

module _ {D : Type 0} (utils : Web3Utils) where
  unfoldable pub validate_address : Text → World D → World D
  unfolding is_valid_address
  validate_address address w =
      let valid = is_valid_address utils address in
      let own = w.public_key == address in
      let free = is_empty (filter (λ e. e.address == address) (get_addresses w.state)) in
      dispatch_if (not free) (Action.address_error_set address_used) (
        dispatch_if own (Action.address_error_set own_address) (
          dispatch_if (not valid) (Action.address_error_set invalid_address)
            (dispatch_if (valid && not own && free) (Action.address_error_set []) w)))
