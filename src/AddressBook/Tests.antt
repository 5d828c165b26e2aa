-- ===== src/AddressBook/Tests.antt =====
-- The theorems on the address book, at a book with one entry.
use identity_wallet.Common.{
  ℕ, suc, ◌≡◌, refl, ◌↔◌, ◌≤◌, true, false, some, [], ◌∷◌, ◌==◌, contains, ok,
}
use identity_wallet.Common.Collection.Laws.{Distinct}
use identity_wallet.Schema.Text.{Text, codes, text_eq}
use identity_wallet.AddressBook.State.{Entry, address_book_reducer}
use identity_wallet.AddressBook.Operations.{
  Service, World, Web3Utils, is_valid_address, validate_label, validate_address,
  add_address_book_entry,
}
use identity_wallet.AddressBook.Labels.{
  labels, validate_label-accepts, add_address_book_entry-Distinct,
}
use identity_wallet.AddressBook.Addresses.{addresses, validate_address-accepts}

abbrev entry : Text → Text → Entry
entry label address = record { id = 1; wallet_id = some 1; label = label; address = address }

abbrev world : World ℕ
world = record {
  table = 0;
  state = record {
    entries = entry (codes "ann") (codes "0xaa") ∷ [];
    label_error = [];
    address_error = [];
  };
  wallet_id = 1;
  public_key = codes "0x11";
}

abbrev service : Service ℕ
service = record {
  add_entry = λ e d. (e, suc d);
  edit_entry = λ e d. (e, suc d);
  delete_entry_by_id = λ i d. suc d;
  load_entries_by_wallet_id = λ w d. [];
}

abbrev utils : Web3Utils
utils = record { to_checksum_address = λ a. ok a; is_hex = λ a. true; is_address = λ a. true }

validate_label-accepts_example :
    ((validate_label (codes "bob") world).state.label_error ≡ [])
    ↔ ((1 ≤ 3) × (3 ≤ 25) × (contains (codes "ann" ∷ []) (codes "bob") ≡ false))
validate_label-accepts_example = validate_label-accepts (codes "bob") world

bob_is_accepted : (validate_label (codes "bob") world).state.label_error ≡ []
unfolding validate_label address_book_reducer text_eq
bob_is_accepted = refl

add_address_book_entry-Distinct_example : Distinct (
    labels
      (add_address_book_entry service
        (entry (codes "bob") (codes "0xbb"))
        (validate_label (codes "bob") world)).state.entries)
add_address_book_entry-Distinct_example =
    add_address_book_entry-Distinct (codes "bob") world service (entry (codes "bob") (codes "0xbb"))
      refl (λ d x. refl) bob_is_accepted (refl, tt)

validate_address-accepts_test :
    ((validate_address utils (codes "0xbb") world).state.address_error ≡ []) ↔ (
      (is_valid_address utils (codes "0xbb") ≡ true)
      × ((world.public_key == codes "0xbb") ≡ false)
      × (contains (addresses world.state.entries) (codes "0xbb") ≡ false))
validate_address-accepts_test = validate_address-accepts utils (codes "0xbb") world
