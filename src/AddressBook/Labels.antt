-- ===== src/AddressBook/Labels.antt =====
-- What validating a label tells, and that adding what it accepts keeps labels apart.
use identity_wallet.Common.{
  ◌≡◌, refl, ap, sym, ◌∙◌, subst, ◌↔◌, ◌≤◌, true, false, not, some, List, [], ◌∷◌, map, map-append,
  arith, if◌then◌else◌, ◌==◌, filter, contains, Bool-cases, inl, inr, length, ◌⊎◌, eq_of_true,
}
use identity_wallet.Common.Collection.Laws.{Distinct}
use identity_wallet.Common.Collection.Select.{Distinct-append}
use identity_wallet.Schema.Text.{Text, text_eq}
use identity_wallet.AddressBook.State.{Entry, address_book_reducer}
use identity_wallet.AddressBook.Operations.{
  Service, World, is_short, is_empty, too_long, label_used, validate_label, add_address_book_entry,
}

abbrev pub labels : List Entry → List Text
labels = map (λ e. e.label)

is_empty-labels :
    (label : Text) (es : List Entry)
    → is_empty (filter (λ e. e.label == label) es) ≡ not (contains (labels es) label)
is_empty-labels label [] = refl
is_empty-labels label (e ∷ es) = ground (arith, is_empty-labels label es)

module _ {D : Type 0} where
  -- The message that is set last stands.
  label_error-validate :
      (label : Text) (w : World D)
      → let used = contains (labels w.state.entries) label in
        (validate_label label w).state ≡ record w.state {
          label_error = if used then label_used else if is_short label then [] else too_long;
        }
  unfolding validate_label address_book_reducer
  label_error-validate label w =
      let free = is_empty-labels label w.state.entries in
      elim (Bool-cases (contains (labels w.state.entries) label)) [
        | inl used ↦ elim (Bool-cases (is_short label)) [
          | inl short ↦ simp (free, used, short)
          | inr long ↦ simp (free, used, long)
        ]
        | inr unused ↦ elim (Bool-cases (is_short label)) [
          | inl short ↦ simp (free, unused, short)
          | inr long ↦ simp (free, unused, long)
        ]
      ]

is_short-length :
    (label : Text) → (is_short label ≡ true) ↔ ((1 ≤ length label) × (length label ≤ 25))
is_short-length [] = ((λ h. cc), λ (le, h). ground arith)
is_short-length (c ∷ s) = ((λ h. (omega arith, ground arith)), λ (le, h). ground arith)

apart :
    (i label : Text) (ls : List Text)
    → contains ls i ≡ true
    → contains ls label ≡ false
    → contains (label ∷ []) i ≡ false
apart i label ls known unused = ground (arith, eq_of_true i label)

module _ {D : Type 0} (label : Text) (w : World D) where
  told_error : (validate_label label w).state.label_error ≡ (
      if contains (labels w.state.entries) label
      then label_used
      else if is_short label
      then []
      else too_long)
  told_error = ap (λ s. s.label_error) (label_error-validate label w)

  -- Validating a label leaves no error exactly if the label has 1 to 25 characters and no entry of
  -- the store has it.
  pub validate_label-accepts : ((validate_label label w).state.label_error ≡ []) ↔ (
      (1 ≤ length label) × (length label ≤ 25) × (contains (labels w.state.entries) label ≡ false))
  validate_label-accepts =
      let told = told_error in
      (
        (λ none_told.
            accepted none_told (Bool-cases (contains (labels w.state.entries) label))
              (Bool-cases (is_short label))),
        λ (some_char, few, unused).
            told ∙ rw (unused, (is_short-length label).1 (some_char, few)) refl,
      )
    where
      accepted :
          (validate_label label w).state.label_error ≡ []
          → (contains (labels w.state.entries) label ≡ true)
            ⊎ (contains (labels w.state.entries) label ≡ false)
          → (is_short label ≡ true) ⊎ (is_short label ≡ false)
          → (1 ≤ length label)
            × (length label ≤ 25)
            × (contains (labels w.state.entries) label ≡ false)
      accepted e (inl used) short = cc (rw used at (sym e ∙ told_error))
      accepted e (inr unused) (inr long) = cc (rw (unused, long) at (sym e ∙ told_error))
      accepted e (inr unused) (inl short) =
          let (some_char, few) = (is_short-length label).0 short in (some_char, few, unused)

  -- If validating an entry's label leaves no error and the table returns the entry with that label,
  -- then adding it keeps the labels of the entries different.
  pub add_address_book_entry-Distinct :
      (service : Service D) (e : Entry)
      → e.label ≡ label
      → ((d : D) (x : Entry) → (service.add_entry x d).0.label ≡ x.label)
      → (validate_label label w).state.label_error ≡ []
      → Distinct (labels w.state.entries)
      → Distinct (labels (add_address_book_entry service e (validate_label label w)).state.entries)
  unfolding add_address_book_entry address_book_reducer
  add_address_book_entry-Distinct service e same keeps accepted distinct =
      let w' = validate_label label w in
      let x = (service.add_entry (record e { wallet_id = some w'.wallet_id }) w'.table).0 in
      let here : x.label ≡ label =
        keeps w'.table (record e { wallet_id = some w'.wallet_id }) ∙ same in
      let entries : w'.state.entries ≡ w.state.entries =
        ap (λ s. s.entries) (label_error-validate label w) in
      let (some_char, few, unused) = validate_label-accepts.0 accepted in
      subst (λ ls. Distinct ls) (sym (map-append (λ y. y.label) w'.state.entries (x ∷ [])))
        (Distinct-append {V = Entry} (λ y. y.label) (labels w'.state.entries) (x.label ∷ [])
          (rw entries distinct) (refl, tt)
          (λ i known.
            rw here (apart i label (labels w.state.entries) (rw entries at known) unused)))
