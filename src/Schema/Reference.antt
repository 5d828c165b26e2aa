-- ===== src/Schema/Reference.antt =====
-- The references to documents in attribute data: what normalizing writes, and the two regular
-- expressions by which denormalizing reads it (src/common/identity/utils.js).
use identity_wallet.Common.{
  ℕ, ◌≡◌, refl, Bool, true, false, not, ◌&&◌, ◌||◌, Option, none, some, [], ◌∷◌, ◌++◌, arith,
  if◌then◌else◌, ◌==◌, nat_eq,
}
use identity_wallet.Schema.Text.{
  Text, codes, is_digit, decimal, number_from, AllDigits, decimal-AllDigits, decimal-ne-nil,
}

-- The rest of a text behind a prefix.
unfoldable pub strip : Text → Text → Option Text
strip [] s = some s
strip (p ∷ ps) [] = none
strip (p ∷ ps) (c ∷ s) = let rest = strip ps s in if p == c then rest else none

-- `.` matches no line terminator.
abbrev pub is_dot : ℕ → Bool
is_dot c = not (c == 10 || c == 13 || c == 8232 || c == 8233)

-- `.id}$`
unfoldable pub ends_ref : Text → Bool
ends_ref (c ∷ i ∷ d ∷ b ∷ []) = is_dot c && i == b'i' && d == b'd' && b == b'}'
ends_ref _ = false

-- `[0-9]+.id}$`, with the digits: the end of the text tells where they stop.
unfoldable pub ref_digits : Text → Option Text
unfolding ends_ref
ref_digits [] = none
ref_digits (c ∷ s) =
    let more = ref_digits s in
    if is_digit c
    then (if ends_ref s then some (c ∷ []) else elim more [ none ↦ none | some ds ↦ some (c ∷ ds) ])
    else none

-- `#ref{(document[0-9]+).id}$` at the start of a text, with the group.
unfoldable pub ref_here : Text → Option Text
unfolding strip ref_digits
ref_here s = elim (strip (codes "#ref{document") s) [
  | none ↦ none
  | some t ↦ elim (ref_digits t) [ none ↦ none | some ds ↦ some (codes "document" ++ ds) ]
]

-- `s.match(/#ref{(document[0-9]+).id}$/)[1]`: the leftmost match.
unfoldable pub match_ref : Text → Option Text
unfolding ref_here
match_ref [] = none
match_ref (c ∷ s) =
    let later = match_ref s in elim (ref_here (c ∷ s)) [ none ↦ later | some id ↦ some id ]

abbrev pub all_digits : Text → Bool
all_digits [] = true
all_digits (c ∷ s) = is_digit c && all_digits s

-- `\$document-([0-9]+)$` at the start of a text, with the group.
unfoldable pub id_here : Text → Option Text
unfolding strip
id_here s = elim (strip (codes "$document-") s) [
  | none ↦ none
  | some t ↦ elim t [ [] ↦ none | c ∷ ds ↦ if all_digits (c ∷ ds) then some (c ∷ ds) else none ]
]

unfoldable pub match_id : Text → Option Text
unfolding id_here
match_id [] = none
match_id (c ∷ s) =
    let later = match_id s in elim (id_here (c ∷ s)) [ none ↦ later | some id ↦ some id ]

-- `let id = value.match(refIdRegexp); if (!id) id = value.match(idRegexp);`, with the group.
unfoldable pub match_reference : Text → Option Text
unfolding match_ref match_id
match_reference s = elim (match_ref s) [ none ↦ match_id s | some id ↦ some id ]

-- `+id` of a group: `NaN` for a group that begins with `document`.
unfoldable pub group_number : Text → Option ℕ
unfolding number_from
group_number s = if all_digits s then some (number_from 0 s) else none

-- The texts that normalizing writes.
abbrev pub id_reference : Text → Text
id_reference id = codes "$document-" ++ id

abbrev pub new_name : ℕ → Text
new_name k = codes "document" ++ decimal k

abbrev pub new_reference : ℕ → Text
new_reference k = codes "$document-#ref{document" ++ decimal k ++ codes ".id}"

-- A text of digits is no end of a new reference, and contains none.
pub AllDigits-all_digits : (s : Text) → AllDigits s → all_digits s ≡ true
AllDigits-all_digits [] h = refl
AllDigits-all_digits (c ∷ s) h = ground (arith, AllDigits-all_digits s h.1)

match_ref-digits : (s : Text) → AllDigits s → match_ref s ≡ none
unfolding match_ref
match_ref-digits [] h = refl
match_ref-digits (c ∷ s) h = ground (arith, match_ref-digits s h.1)

id_reference-match : (s : Text) → AllDigits s → match_ref (id_reference s) ≡ none
unfolding match_ref nat_eq
id_reference-match s h = match_ref-digits s h

ends_ref-long : (d : ℕ) (s : Text) → ends_ref (d ∷ (s ++ codes ".id}")) ≡ false
unfolding ends_ref
ends_ref-long d [] = refl
ends_ref-long d (x ∷ []) = refl
ends_ref-long d (x ∷ y ∷ []) = refl
ends_ref-long d (x ∷ y ∷ z ∷ []) = refl
ends_ref-long d (x ∷ y ∷ z ∷ w ∷ s) = refl

ref_digits-decimal :
    (s : Text) (c : ℕ) → AllDigits (c ∷ s) → ref_digits (c ∷ s ++ codes ".id}") ≡ some (c ∷ s)
unfolding ref_digits
ref_digits-decimal [] c h = ground arith
ref_digits-decimal (d ∷ s) c h = ground (arith, ends_ref-long d s, ref_digits-decimal s d h.1)

match_id-digits :
    (c : ℕ) (s : Text) → all_digits (c ∷ s) ≡ true → match_id (id_reference (c ∷ s)) ≡ some (c ∷ s)
unfolding match_id nat_eq
match_id-digits c s h = rw (h, match_id)

match_ref-new :
    (c : ℕ) (s : Text)
    → AllDigits (c ∷ s)
    → match_ref (codes "$document-#ref{document" ++ (c ∷ s) ++ codes ".id}")
      ≡ some (codes "document" ++ c ∷ s)
unfolding match_ref nat_eq
match_ref-new c s h = rw (ref_digits-decimal s c h, match_ref, ref_here)

-- The reference to a stored document reads back as the numeral of its id.
pub match_reference-id : (n : ℕ) → match_reference (id_reference (decimal n)) ≡ some (decimal n)
unfolding match_reference
match_reference-id n =
    let (c, s, e) = decimal-ne-nil n in
    let digits = rw e at (decimal-AllDigits n) in
    rw e (
      rw (id_reference-match (c ∷ s) digits, match_reference)
        (match_id-digits c s (AllDigits-all_digits (c ∷ s) digits)))

-- The reference to a new document, at place `k` of the list, reads back as the name it is given there.
pub match_reference-new : (k : ℕ) → match_reference (new_reference k) ≡ some (new_name k)
unfolding match_reference
match_reference-new k =
    let (c, s, e) = decimal-ne-nil k in
    rw e (rw (match_ref-new c s (rw e at (decimal-AllDigits k)), match_reference))

test_ref : match_reference (codes "$document-#ref{document12.id}") ≡ some (codes "document12")
unfolding match_reference nat_eq
test_ref = refl
