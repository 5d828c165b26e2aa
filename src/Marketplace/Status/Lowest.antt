-- ===== src/Marketplace/Status/Lowest.antt =====
-- The status of a marketplace transaction is the least advanced of those on the blockchain.
use identity_wallet.Common.{
  ℕ, zero, suc, ◌≡◌, refl, ap, sym, subst, ◌≤◌, ◌⊎◌, inl, inr, Option, none, some, List, [], ◌∷◌,
  arith, ltb, if◌then◌else◌, or_else, length, All, ok, Bool-cases,
}
use identity_wallet.Schema.Value.{Value, truthy}
use identity_wallet.Staking.Chain.{continue-ok}
use identity_wallet.Marketplace.State.{Status, new}
use identity_wallet.Marketplace.Status.{
  rank, lower_status, reduce_status, Lookups, is_bool, status_of_receipt, status_of_transaction,
  check_transaction_status, check_transaction_statuses, check_mp_tx_status,
}

-- The statuses that the blockchain gives, in the order in which a transaction goes through them.
abbrev pub Ranked : Status → Type 0
Ranked s = (n : ℕ) × (rank s ≡ some n)

-- 0 for a status without rank.
abbrev pub rank_of : Status → ℕ
rank_of s = or_else (rank s) 0

abbrev pub Occurs : Status → List Status → Type 0
Occurs s [] = ⊥
Occurs s (x ∷ xs) = (x ≡ s) ⊎ Occurs s xs

-- The lowest of the statuses, `new` if there are none.
abbrev pub IsLowest : Status → List Status → Type 0
IsLowest s [] = s ≡ new
IsLowest s (x ∷ xs) = Occurs s (x ∷ xs) × All (λ y. rank_of s ≤ rank_of y) (x ∷ xs)

lower_status-cases :
    (a b : Status)
    → Ranked a
    → Ranked b
    → ((lower_status a b ≡ a) × (rank_of a ≤ rank_of b))
      ⊎ ((lower_status a b ≡ b) × (rank_of b ≤ rank_of a))
unfolding lower_status
lower_status-cases a b (m, p) (n, q) = elim (Bool-cases (ltb n m)) [
  | inl less ↦ inr (rw (p, q, less, lower_status) refl, rw (p, q) (ground arith))
  | inr more ↦ inl (rw (p, q, more, lower_status) refl, rw (p, q) (ground arith))
]

weaken :
    (m n : ℕ) (xs : List Status) → m ≤ n → All (λ y. n ≤ rank_of y) xs → All (λ y. m ≤ rank_of y) xs
weaken m n [] le h = tt
weaken m n (x ∷ xs) le (p, h) = (omega arith, weaken m n xs le h)

reduce_status-from :
    (ss : List Status) (acc : Status)
    → Ranked acc
    → All Ranked ss
    → IsLowest (reduce_status acc ss) (acc ∷ ss)
unfolding reduce_status
reduce_status-from [] acc r h = (inl refl, (omega arith, tt))
reduce_status-from (s ∷ ss) acc r (q, h) = elim (lower_status-cases acc s r q) [
  | inl (same, le) ↦
      let (m, (low, rest)) = reduce_status-from ss acc r h in
      subst (λ a. IsLowest (reduce_status a ss) (acc ∷ s ∷ ss)) (sym same)
        ((elim m [ inl here ↦ inl here | inr later ↦ inr (inr later) ]), (low, (omega arith, rest)))
  | inr (same, le) ↦
      let (m, (low, rest)) = reduce_status-from ss s q h in
      subst (λ a. IsLowest (reduce_status a ss) (acc ∷ s ∷ ss)) (sym same)
        (inr m, (omega arith, (low, rest)))
]

reduce_status-IsLowest : (ss : List Status) → All Ranked ss → IsLowest (reduce_status new ss) ss
unfolding reduce_status lower_status rank
reduce_status-IsLowest [] h = refl
reduce_status-IsLowest (s ∷ ss) (q, h) = reduce_status-from ss s q h

module _ {C : Type 0} (lookups : Lookups C) where
  status_of_receipt-Ranked :
      (receipt : Option Value) (c c' : C) (s : Status)
      → status_of_receipt lookups receipt c ≡ (ok s, c')
      → Ranked s
  unfolding rank
  status_of_receipt-Ranked none c c' s e = cc
  status_of_receipt-Ranked (some status) c c' s e =
      elim (Bool-cases (truthy (if is_bool status then status else lookups.hex_to_number status))) [
        | inl passed ↦ (4, cc (rw passed at e))
        | inr not_passed ↦ (1, cc (rw not_passed at e))
      ]

  status_of_transaction-Ranked :
      (hash : Value) (tx : Option (Option ℕ)) (c c' : C) (s : Status)
      → status_of_transaction lookups hash tx c ≡ (ok s, c')
      → Ranked s
  unfolding rank
  status_of_transaction-Ranked hash none c c' s e = (2, cc)
  status_of_transaction-Ranked hash (some none) c c' s e = (3, cc)
  status_of_transaction-Ranked hash (some (some zero)) c c' s e = (3, cc)
  status_of_transaction-Ranked hash (some (some (suc n))) c c' s e =
      let (receipt, d, _, h) =
        continue-ok (status_of_receipt lookups) (lookups.get_transaction_receipt hash c) e in
      status_of_receipt-Ranked receipt d c' s h

  check_transaction_status-Ranked :
      (hash : Value) (c c' : C) (s : Status)
      → check_transaction_status lookups hash c ≡ (ok s, c')
      → Ranked s
  unfolding check_transaction_status
  check_transaction_status-Ranked hash c c' s e =
      let (tx, d, _, h) =
        continue-ok (status_of_transaction lookups hash) (lookups.get_transaction hash c) e in
      status_of_transaction-Ranked hash tx d c' s h

  check_transaction_statuses-Ranked :
      (hashes : List Value) (c c' : C) (ss : List Status)
      → check_transaction_statuses lookups hashes c ≡ (ok ss, c')
      → All Ranked ss × (length ss ≡ length hashes)
  unfolding check_transaction_statuses
  check_transaction_statuses-Ranked [] c c' ss e = let same : ss ≡ [] = cc in rw same (tt, refl)
  check_transaction_statuses-Ranked (h ∷ hs) c c' ss e =
      let (s, d, first, e') = continue-ok _ (check_transaction_status lookups h c) e in
      let (ss', d', others, e'') = continue-ok _ (check_transaction_statuses lookups hs d) e' in
      let (ranked, count) = check_transaction_statuses-Ranked hs d d' ss' others in
      let same : ss ≡ s ∷ ss' = cc in
      rw same ((check_transaction_status-Ranked h c d s first, ranked), ap suc count)

  -- If the status of a marketplace transaction is returned, the statuses of its transactions on the
  -- blockchain were, one for each, and it is the lowest of them: failed before pending before
  -- processing before success, and new if there are none.
  pub check_mp_tx_status-IsLowest :
      (hashes : List Value) (c c' : C) (s : Status)
      → check_mp_tx_status lookups hashes c ≡ (ok s, c')
      → (ss : List Status) × (check_transaction_statuses lookups hashes c ≡ (ok ss, c'))
        × (length ss ≡ length hashes)
        × IsLowest s ss
  unfolding check_mp_tx_status
  check_mp_tx_status-IsLowest hashes c c' s e =
      let (ss, d, run, e') = continue-ok _ (check_transaction_statuses lookups hashes c) e in
      let (ranked, count) = check_transaction_statuses-Ranked hashes c d ss run in
      let same : reduce_status new ss ≡ s = cc in
      let end : d ≡ c' = cc in
      (
        ss,
        subst (λ x. check_transaction_statuses lookups hashes c ≡ (ok ss, x)) end run,
        count,
        subst (λ r. IsLowest r ss) same (reduce_status-IsLowest ss ranked),
      )
