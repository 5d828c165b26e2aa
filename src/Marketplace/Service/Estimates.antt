-- ===== src/Marketplace/Service/Estimates.antt =====
-- The gas that is estimated before a stake.
use identity_wallet.Common.{◌≡◌, refl, Option, some, List, ok}
use identity_wallet.Schema.Text.{Text}
use identity_wallet.Staking.Chain.{Web3, to_number}
use identity_wallet.Staking.Contracts.{
  Contract, contract_send, contract_call, approve, allowance, deposit,
}
use identity_wallet.Staking.Service.{Staking, place_stake}
use identity_wallet.Marketplace.Status.{Lookups}
use identity_wallet.Marketplace.Service.{Table, Setting, Backend, estimate_gas_for_stake}

-- Once the contracts are acquired, the estimate is 200000 whatever the chain, the service and the
-- allowance, and it leaves the database as it is.
pub estimate_gas_for_stake-constant :
    {D C : Type 0} (table : Table D) (web3 : Web3 C) (lookups : Lookups C) (setting : Setting)
    (token active : Contract) (old : List Contract) (owner id : Option Text) (b : Backend D C)
    → let staking : Staking = record {
      active_contract = some active;
      deprecated_contracts = old;
      token_contract = some token;
    } in
      let r = estimate_gas_for_stake table web3 lookups staking setting owner id b in
      (r.0 ≡ ok 200000) × (r.1.database ≡ b.database)
unfolding estimate_gas_for_stake place_stake approve deposit allowance contract_send contract_call
    to_number
estimate_gas_for_stake-constant table web3 lookups setting token active old owner id b =
    (refl, refl)
