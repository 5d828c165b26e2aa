-- ===== src/Staking/Config/Latest.antt =====
-- Which contract of the remote table becomes the active one.
use identity_wallet.Common.{
  ℕ, ◌≡◌, refl, ap, ◌≤◌, ◌⊎◌, inl, inr, true, false, Option, none, some, List, [], ◌∷◌, ◌++◌, arith,
  subst, All, Result, ok, Bool-cases,
}
use mathlib.Core.Option.{some-injective}
use identity_wallet.Schema.Text.{Text, codes}
use identity_wallet.Staking.Config.{
  Entity, Parsed, Config, text_or, created, sort_created, collect_contracts, parse_remote_config,
  empty_config,
}
use identity_wallet.Staking.Config.Sorting.{
  Member, IsSorted, sort_created-IsSorted, sort_created-Member, Member-sort_created,
}

All-Member : (P : Entity → Type 0) (m : Entity) (xs : List Entity) → All P xs → Member m xs → P m
All-Member P m [] h here = absurd here
All-Member P m (x ∷ xs) (p, h) (inl here) = subst P here p
All-Member P m (x ∷ xs) (p, h) (inr later) = All-Member P m xs h later

Member-All :
    (P : Entity → Type 0) (xs : List Entity) → ((m : Entity) → Member m xs → P m) → All P xs
Member-All P [] h = tt
Member-All P (x ∷ xs) h = (h x (inl refl), Member-All P xs (λ m k. h m (inr k)))

abbrev AllDeprecated : List Entity → Type 0
AllDeprecated = All (λ e. e.deprecated ≡ true)

module _ (time_of : Text → ℕ) where
  -- Of the entities that are not deprecated, this one is created last.
  abbrev pub IsLatest : Entity → List Entity → Type 0
  IsLatest p es =
      Member p es
      × (p.deprecated ≡ false)
      × All (λ e. e.deprecated ≡ false → created time_of e ≤ created time_of p) es

  -- What the loop makes of the active contract.
  abbrev Chosen : Option Parsed → Option Parsed → List Entity → Type 0
  Chosen old none es = (old ≡ none) × AllDeprecated es
  Chosen old (some p) es = ((old ≡ some p) × AllDeprecated es) ⊎ IsLatest p.entity es

  Chosen-deprecated :
      (old : Option Parsed) (r : Option Parsed) (e : Entity) (es : List Entity)
      → e.deprecated ≡ true
      → Chosen old r es
      → Chosen old r (e ∷ es)
  Chosen-deprecated old none e es d (h, k) = (h, (d, k))
  Chosen-deprecated old (some p) e es d (inl (h, k)) = inl (h, (d, k))
  Chosen-deprecated old (some p) e es d (inr (m, a, k)) = inr (inr m, a, ((λ b. cc), k))

  Chosen-active :
      (old : Option Parsed) (r : Option Parsed) (q : Parsed) (es : List Entity)
      → q.entity.deprecated ≡ false
      → All (λ e. created time_of q.entity ≤ created time_of e) es
      → Chosen (some q) r es
      → Chosen old r (q.entity ∷ es)
  Chosen-active old none q es d le (h, k) = cc
  Chosen-active old (some p) q es d le (inl (h, k)) =
      let same : q ≡ p = some-injective q p h in
      inr (
        inl (ap (λ c. c.entity) same),
        subst (λ c. c.entity.deprecated ≡ false) same d,
        (
          (λ b.
              subst (λ c. created time_of q.entity ≤ created time_of c.entity) same (omega arith)),
          Member-All (λ e. e.deprecated ≡ false → created time_of e ≤ created time_of p.entity) es
              (λ m here. λ b. cc (All-Member (λ e. e.deprecated ≡ true) m es k here)),
        ),
      )
  Chosen-active old (some p) q es d le (inr (m, a, k)) = inr (
    inr m,
    a,
    ((λ b. All-Member (λ e. created time_of q.entity ≤ created time_of e) p.entity es le m), k),
  )

  Chosen-none : (old : Option Parsed) → Chosen old old []
  Chosen-none none = (refl, tt)
  Chosen-none (some p) = inl (refl, tt)

  module _ (parse_json : Text → Result Text) where
    abbrev pub Parses : Entity → Type 0
    Parses e = (abi : Text) × (parse_json (text_or e.abi (codes "{}")) ≡ ok abi)

    collect_contracts-Chosen :
        (es : List Entity) (acc : Config)
        → All Parses es
        → IsSorted time_of es
        → (r : Config) × (collect_contracts time_of parse_json acc es ≡ ok r)
          × Chosen acc.active_contract r.active_contract es
    unfolding collect_contracts
    collect_contracts-Chosen [] acc h s = (acc, refl, Chosen-none acc.active_contract)
    collect_contracts-Chosen (e ∷ es) acc ((abi, parsed), h) (le, s) =
        let curr : Parsed = record { entity = e; abi = abi } in
        elim (Bool-cases e.deprecated) [
          | inl old ↦
              let (r, run, chosen) =
                collect_contracts-Chosen es
                  (record acc { deprecated_contracts = acc.deprecated_contracts ++ curr ∷ [] }) h
                  s in
              (
                r,
                simp (parsed, old, run),
                Chosen-deprecated acc.active_contract r.active_contract e es old chosen,
              )
          | inr active ↦
              let (r, run, chosen) =
                collect_contracts-Chosen es (record acc { active_contract = some curr }) h s in
              (
                r,
                simp (parsed, active, run),
                Chosen-active acc.active_contract r.active_contract curr es active le chosen,
              )
        ]

    All-sorted :
        (P : Entity → Type 0) (es : List Entity) → All P (sort_created time_of [] es) → All P es
    All-sorted P es h = Member-All P es (λ m here.
        All-Member P m (sort_created time_of [] es) h
          (Member-sort_created time_of m es [] (inr here)))

    Parses-sorted : (es : List Entity) → All Parses es → All Parses (sort_created time_of [] es)
    Parses-sorted es h = Member-All Parses (sort_created time_of [] es) (λ m here.
        elim (sort_created-Member time_of m es [] here) [
          | inl none_there ↦ absurd none_there
          | inr there ↦ All-Member Parses m es h there
        ])

    -- The entity of the active contract is the latest; without one all the entities are deprecated.
    abbrev pub Latest : Option Parsed → List Entity → Type 0
    Latest none es = AllDeprecated es
    Latest (some p) es = IsLatest p.entity es

    IsLatest-sorted :
        (p : Entity) (es : List Entity) → IsLatest p (sort_created time_of [] es) → IsLatest p es
    IsLatest-sorted p es (m, d, k) = (
      elim (sort_created-Member time_of p es [] m) [
        | inl none_there ↦ absurd none_there
        | inr there ↦ there
      ],
      d,
      All-sorted (λ e. e.deprecated ≡ false → created time_of e ≤ created time_of p) es k,
    )

    Chosen-Latest :
        (r : Option Parsed) (es : List Entity)
        → Chosen none r (sort_created time_of [] es)
        → Latest r es
    Chosen-Latest none es (h, k) = All-sorted (λ e. e.deprecated ≡ true) es k
    Chosen-Latest (some p) es (inl (h, k)) = cc
    Chosen-Latest (some p) es (inr l) = IsLatest-sorted p.entity es l

    -- Where every `abi` parses, the configuration is returned. Its active contract is one of the
    -- entities, is not deprecated, and of those that are not it is created last; it has none only
    -- if all the entities are deprecated.
    pub parse_remote_config-Latest :
        (es : List Entity)
        → All Parses es
        → (r : Config) × (parse_remote_config time_of parse_json es ≡ ok r)
          × Latest r.active_contract es
    unfolding parse_remote_config
    parse_remote_config-Latest es h =
        let (r, run, chosen) =
          collect_contracts-Chosen (sort_created time_of [] es) empty_config (Parses-sorted es h)
            (sort_created-IsSorted time_of es [] tt) in
        (r, run, Chosen-Latest r.active_contract es chosen)
