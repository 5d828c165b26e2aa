-- ===== src/AddressBook/State.antt =====
-- The state of the address book, its reducer and its selectors.
use identity_wallet.Common.{
  ℕ, not, Option, none, some, List, [], ◌∷◌, ◌++◌, if◌then◌else◌, ◌==◌, filter, nat_eq, option_eq,
}
use identity_wallet.Schema.Text.{Text, is_digit, number_from}

pub record Entry : Type 0 where
  pub id : ℕ
  pub wallet_id : Option ℕ
  pub label : Text
  pub address : Text

pub record State : Type 0 where
  pub entries : List Entry
  pub label_error : Text
  pub address_error : Text

abbrev pub initial_state : State
initial_state = record { entries = []; label_error = []; address_error = [] }

-- `ADDRESS_BOOK_ENTRY_EDIT` has no case in the reducer.
pub data Action : Type 0 where
  entry_add : Entry → Action
  entries_load : List Entry → Action
  entry_delete : ℕ → Action
  entry_edit : Entry → Action
  label_error_set : Text → Action
  address_error_set : Text → Action

unfoldable pub address_book_reducer : State → Action → State
address_book_reducer s (Action.entry_add e) = record s { entries = s.entries ++ e ∷ [] }
address_book_reducer s (Action.entries_load es) = record s { entries = es }
address_book_reducer s (Action.entry_delete id) = record s {
  entries = filter (λ e. not (e.id == id)) s.entries;
}
address_book_reducer s (Action.entry_edit e) = s
address_book_reducer s (Action.label_error_set m) = record s { label_error = m }
address_book_reducer s (Action.address_error_set m) = record s { address_error = m }

abbrev pub get_addresses : State → List Entry
get_addresses s = s.entries

-- The digits at the start of a text.
unfoldable pub leading_digits : Text → Text
leading_digits [] = []
leading_digits (c ∷ s) = let rest = leading_digits s in if is_digit c then c ∷ rest else []

-- `parseInt(id)`, of a text that begins with a digit; `NaN` of the others.
unfoldable pub parse_int : Text → Option ℕ
unfolding leading_digits number_from
parse_int s = elim (leading_digits s) [ [] ↦ none | c ∷ ds ↦ some (number_from 0 (c ∷ ds)) ]

unfoldable pub get_label : State → Text → Text
unfolding parse_int
get_label s id = elim (filter (λ e. some e.id == parse_int id) s.entries) [
  | [] ↦ []
  | e ∷ es ↦ e.label
]
