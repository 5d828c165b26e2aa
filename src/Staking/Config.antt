-- ===== src/Staking/Config.antt =====
-- `parseRemoteConfig`, `fetchConfig` and `acquireContract` of `StakingService`. What fetching and
-- parsing give are parameters; a time is in milliseconds since 1970.
pub mod Sorting
pub mod Latest
use identity_wallet.Common.{
  ℕ, Bool, true, false, Option, none, some, List, [], ◌∷◌, ◌++◌, map, ltb, if◌then◌else◌, Result,
  ok, throw, type_error, error, ◌>>=◌,
}
use identity_wallet.Schema.Text.{Text, codes}
use identity_wallet.Staking.Contracts.{Contract}
use identity_wallet.Staking.Service.{Staking}
use identity_wallet.Staking.Chain.{Run}

-- The `data` of an entity of the remote table.
pub record Entity : Type 0 where
  pub address : Text
  pub abi : Option Text
  pub deprecated : Bool
  pub created_at : Option Text

-- An entity whose `abi` is parsed.
pub record Parsed : Type 0 where
  pub entity : Entity
  pub abi : Text

pub record Config : Type 0 where
  pub active_contract : Option Parsed
  pub deprecated_contracts : List Parsed

abbrev pub empty_config : Config
empty_config = record { active_contract = none; deprecated_contracts = [] }

-- `s || d`: the empty text is falsy.
abbrev pub text_or : Option Text → Text → Text
text_or none d = d
text_or (some []) d = d
text_or (some (c ∷ s)) d = c ∷ s

-- `new StakingContract(this.web3, c.address, c.abi, !!c.deprecated)`
abbrev pub staking_contract : Parsed → Contract
staking_contract p = record {
  address = p.entity.address;
  abi = p.abi;
  is_deprecated = p.entity.deprecated;
}

module _ (time_of : Text → ℕ) where
  -- `createdAt ? new Date(createdAt).getTime() : 0`
  abbrev pub created_time : Option Text → ℕ
  created_time none = 0
  created_time (some []) = 0
  created_time (some (c ∷ s)) = time_of (c ∷ s)

  abbrev pub created : Entity → ℕ
  created e = created_time e.created_at

  -- The sort by creation, which keeps the order of what is created at the same time.
  unfoldable pub insert_created : Entity → List Entity → List Entity
  insert_created e [] = e ∷ []
  insert_created e (x ∷ xs) =
      let rest = insert_created e xs in if ltb (created e) (created x) then e ∷ x ∷ xs else x ∷ rest

  unfoldable pub sort_created : List Entity → List Entity → List Entity
  unfolding insert_created
  sort_created acc [] = acc
  sort_created acc (e ∷ es) = sort_created (insert_created e acc) es

  module _ (parse_json : Text → Result Text) where
    -- The loop of `reduce`.
    unfoldable pub collect_contracts : Config → List Entity → Result Config
    collect_contracts acc [] = ok acc
    collect_contracts acc (e ∷ es) = do
      abi ← parse_json (text_or e.abi (codes "{}"))
      let curr : Parsed = record { entity = e; abi = abi }
      collect_contracts
          (if e.deprecated
            then record acc { deprecated_contracts = acc.deprecated_contracts ++ curr ∷ [] }
            else record acc { active_contract = some curr })
          es

    unfoldable pub parse_remote_config : List Entity → Result Config
    unfolding collect_contracts sort_created
    parse_remote_config es = collect_contracts empty_config (sort_created [] es)

    -- The response is what fetching and reading it gives: the `entities`, if it has any.
    unfoldable pub fetch_config : Result (Option (List Entity)) → Result Config
    unfolding parse_remote_config
    fetch_config response =
        let parsed = (do
          entities ← response
          elim entities [
            | none ↦ throw (error "Invalid responce")
            | some es ↦ parse_remote_config es
          ]) in
        elim parsed [ ok c ↦ ok c | throw x ↦ throw (error "Could not fetch from airtable") ]

    -- The fields are set one after the other: a token that is missing leaves the contracts set.
    unfoldable pub acquire_contract :
        Text → Option Text → Result (Option (List Entity)) → Run Staking (Unit {0})
    unfolding fetch_config
    acquire_contract token_abi token response s = elim (fetch_config response) [
      | throw x ↦ (throw x, s)
      | ok c ↦ elim c.active_contract [
        | none ↦ (throw type_error, s)
        | some active ↦
            let acquired : Staking = record {
              active_contract = some (staking_contract active);
              deprecated_contracts = map staking_contract c.deprecated_contracts;
              token_contract = s.token_contract;
            } in
            elim token [
              | none ↦ (throw type_error, acquired)
              | some address ↦ (
                ok tt,
                record acquired {
                  token_contract =
                      some (record { address = address; abi = token_abi; is_deprecated = false });
                },
              )
            ]
      ]
    ]
