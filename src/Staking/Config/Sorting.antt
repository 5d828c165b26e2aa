-- ===== src/Staking/Config/Sorting.antt =====
-- The sort of the remote table by creation: its order, and what it keeps.
use identity_wallet.Common.{ℕ, ◌≡◌, ◌≤◌, ◌⊎◌, inl, inr, List, [], ◌∷◌, arith, ltb, All, Bool-cases}
use identity_wallet.Schema.Text.{Text}
use identity_wallet.Staking.Config.{Entity, created, insert_created, sort_created}

abbrev pub Member : Entity → List Entity → Type 0
Member e [] = ⊥
Member e (x ∷ xs) = (x ≡ e) ⊎ Member e xs

module _ (time_of : Text → ℕ) where
  -- Everything behind an entity is created no earlier.
  abbrev pub IsSorted : List Entity → Type 0
  IsSorted [] = Unit
  IsSorted (x ∷ xs) = All (λ e. created time_of x ≤ created time_of e) xs × IsSorted xs

  insert_created-All :
      (P : Entity → Type 0) (e : Entity) (xs : List Entity)
      → P e
      → All P xs
      → All P (insert_created time_of e xs)
  unfolding insert_created
  insert_created-All P e [] p h = (p, tt)
  insert_created-All P e (x ∷ xs) p (q, h) =
      elim (Bool-cases (ltb (created time_of e) (created time_of x))) [
        | inl early ↦ rw early (p, (q, h))
        | inr late ↦ rw late (q, insert_created-All P e xs p h)
      ]

  All-weaken :
      (m n : ℕ) (xs : List Entity)
      → m ≤ n
      → All (λ e. n ≤ created time_of e) xs
      → All (λ e. m ≤ created time_of e) xs
  All-weaken m n [] le h = tt
  All-weaken m n (x ∷ xs) le (p, h) = (omega arith, All-weaken m n xs le h)

  insert_created-IsSorted :
      (e : Entity) (xs : List Entity) → IsSorted xs → IsSorted (insert_created time_of e xs)
  unfolding insert_created
  insert_created-IsSorted e [] h = (tt, tt)
  insert_created-IsSorted e (x ∷ xs) (p, h) =
      elim (Bool-cases (ltb (created time_of e) (created time_of x))) [
        | inl early ↦
            let le : created time_of e ≤ created time_of x = ground arith in
            rw early ((le, All-weaken (created time_of e) (created time_of x) xs le p), (p, h))
        | inr late ↦
            let le : created time_of x ≤ created time_of e = ground arith in
            rw late (
              insert_created-All (λ y. created time_of x ≤ created time_of y) e xs le p,
              insert_created-IsSorted e xs h,
            )
      ]

  pub sort_created-IsSorted :
      (es acc : List Entity) → IsSorted acc → IsSorted (sort_created time_of acc es)
  unfolding sort_created
  sort_created-IsSorted [] acc h = h
  sort_created-IsSorted (e ∷ es) acc h =
      sort_created-IsSorted es (insert_created time_of e acc) (insert_created-IsSorted e acc h)

  insert_created-Member :
      (m e : Entity) (xs : List Entity)
      → Member m (insert_created time_of e xs)
      → (e ≡ m) ⊎ Member m xs
  unfolding insert_created
  insert_created-Member m e [] h = h
  insert_created-Member m e (x ∷ xs) h =
      elim (Bool-cases (ltb (created time_of e) (created time_of x))) [
        | inl early ↦ rw early at h
        | inr late ↦ elim (rw late at h) [
          | inl here ↦ inr (inl here)
          | inr later ↦ elim (insert_created-Member m e xs later) [
            | inl new ↦ inl new
            | inr old ↦ inr (inr old)
          ]
        ]
      ]

  Member-insert_created :
      (m e : Entity) (xs : List Entity)
      → (e ≡ m) ⊎ Member m xs
      → Member m (insert_created time_of e xs)
  unfolding insert_created
  Member-insert_created m e [] h = h
  Member-insert_created m e (x ∷ xs) h =
      elim (Bool-cases (ltb (created time_of e) (created time_of x))) [
        | inl early ↦ rw early h
        | inr late ↦ rw late (elim h [
          | inl new ↦ inr (Member-insert_created m e xs (inl new))
          | inr (inl here) ↦ inl here
          | inr (inr later) ↦ inr (Member-insert_created m e xs (inr later))
        ])
      ]

  pub sort_created-Member :
      (m : Entity) (es acc : List Entity)
      → Member m (sort_created time_of acc es)
      → Member m acc ⊎ Member m es
  unfolding sort_created
  sort_created-Member m [] acc h = inl h
  sort_created-Member m (e ∷ es) acc h =
      elim (sort_created-Member m es (insert_created time_of e acc) h) [
        | inr later ↦ inr (inr later)
        | inl before ↦ elim (insert_created-Member m e acc before) [
          | inl here ↦ inr (inl here)
          | inr old ↦ inl old
        ]
      ]

  pub Member-sort_created :
      (m : Entity) (es acc : List Entity)
      → Member m acc ⊎ Member m es
      → Member m (sort_created time_of acc es)
  unfolding sort_created
  Member-sort_created m [] acc (inl h) = h
  Member-sort_created m [] acc (inr h) = absurd h
  Member-sort_created m (e ∷ es) acc (inl h) =
      Member-sort_created m es (insert_created time_of e acc)
        (inl (Member-insert_created m e acc (inr h)))
  Member-sort_created m (e ∷ es) acc (inr (inl h)) =
      Member-sort_created m es (insert_created time_of e acc)
        (inl (Member-insert_created m e acc (inl h)))
  Member-sort_created m (e ∷ es) acc (inr (inr h)) =
      Member-sort_created m es (insert_created time_of e acc) (inr h)
