-- ===== src/Staking/Service.antt =====
-- `getStakingInfo`, `placeStake` and `withdrawStake` of `StakingService`.
use identity_wallet.Common.{
  ℕ, ◌+◌, Bool, false, ◌&&◌, not, Option, none, some, List, [], ◌∷◌, map, ltb, leb, if◌then◌else◌,
  ok, type_error, error,
}
use identity_wallet.Common.Integer.{ℤ, pos, negsuc, minus, is_zero}
use identity_wallet.Schema.Text.{codes}
use identity_wallet.Schema.Value.{Value, num, str, truthy}
use identity_wallet.Staking.Chain.{
  estimate_gas, Options, Run, pure, fail, caught, ◌>>=◌, Web3, ensure_str_hex, to_number,
}
use identity_wallet.Staking.Contracts.{
  Contract, Sent, get_balance, deposit, withdraw, get_release_date, approve, allowance,
}

-- The service once `acquireContract` has run, or before, with no contract.
pub record Staking : Type 0 where
  pub active_contract : Option Contract
  pub deprecated_contracts : List Contract
  pub token_contract : Option Contract

pub record StakingInfo : Type 0 where
  pub balance : Value
  pub service_address : Value
  pub service_id : Value
  pub contract : Option Contract
  pub release_date : Value

abbrev pub contracts : Staking → List (Option Contract)
contracts s = s.active_contract ∷ map some s.deprecated_contracts

-- A contract that is missing: `null.address`.
abbrev pub present : {C : Type 0} → Option Contract → Run C Contract
present none = fail type_error
present (some k) = pure k

-- What `placeStake` returns.
pub record Hashes : Type 0 where
  pub approve : Option Sent
  pub deposit : Sent

-- `new BN(a).gte(new BN(b))`
abbrev pub gte : Option ℕ → Option ℕ → Bool
gte (some a) (some b) = leb b a
gte _ _ = false

-- `a < b`
abbrev pub before : ℕ → Value → Bool
before now date = elim (to_number date) [ none ↦ false | some d ↦ ltb now d ]

-- `totalGas && …`
abbrev pub given : Option ℤ → Bool
given none = false
given (some g) = not (is_zero g)

-- `totalGas - approveGas`
abbrev pub gas_left : Option ℤ → Option ℕ → Option ℤ
gas_left (some (pos a)) (some b) = some (minus a b)
gas_left (some (negsuc a)) (some b) = some (negsuc (a + b))
gas_left _ _ = none

abbrev pub as_gas : Option ℕ → Option ℤ
as_gas none = none
as_gas (some g) = some (pos g)

module _ {C : Type 0} (web3 : Web3 C) where
  module _ (address id : Value) (o : Options) where
    abbrev pub empty_info : StakingInfo
    empty_info = record {
      balance = num 0;
      service_address = address;
      service_id = id;
      contract = none;
      release_date = num 0;
    }

    -- The end of the loop's body, for a contract whose balance is truthy.
    unfoldable pub holder_info : Contract → Value → Run C StakingInfo
    holder_info k balance =
        let info = record empty_info { balance = balance; contract = some k } in
        if not k.is_deprecated
        then (get_release_date web3 k address id o >>= λ date.
            pure (record info { release_date = date }))
        else pure info

    -- A missing contract throws in the `try`, and so has no balance.
    unfoldable pub find_info : List (Option Contract) → Run C StakingInfo
    unfolding holder_info
    find_info [] c = (ok empty_info, c)
    find_info (none ∷ ks) c = find_info ks c
    find_info (some k ∷ ks) c =
        let (balance, c') = caught (num 0) (get_balance web3 k address id o c) in
        let rest = find_info ks c' in if truthy balance then holder_info k balance c' else rest

    unfoldable pub get_staking_info : Staking → Run C StakingInfo
    unfolding find_info
    get_staking_info s = find_info (contracts s)

  unfoldable pub place_stake : Value → Value → Value → Options → Staking → Run C Hashes
  unfolding to_number
  place_stake amount address id o s = do
    token ← present s.token_contract
    active ← present s.active_contract
    let vault = str active.address
    let asking : Options = record {
      from = o.from;
      method = none;
      gas = none;
      gas_price = none;
      value = none;
    }
    allowed ← allowance web3 token vault asking
    let has_allowance = gte (to_number allowed) (to_number amount)
    let estimating : Options = record asking {
      method = some estimate_gas;
      value = some (codes "0x00");
    }
    estimate ←
        if not has_allowance && given o.gas
        then (approve web3 token vault amount estimating >>= λ sent. pure sent.gas)
        else pure none
    let deposit_gas = if not has_allowance && given o.gas then gas_left o.gas estimate else none
    approved ←
        if not has_allowance
        then (approve web3 token vault amount (record o { gas = as_gas estimate }) >>= λ sent.
            pure (some sent))
        else pure none
    deposited ← deposit web3 active amount address id (record o { gas = deposit_gas })
    pure (record { approve = approved; deposit = deposited })

  -- The end of `withdrawStake`, at the time `now`.
  unfoldable pub withdraw_from : ℕ → Value → Value → Options → StakingInfo → Run C Sent
  withdraw_from now address id o info = elim info.contract [
    | none ↦ fail (error "no contract to withdraw from")
    | some k ↦
        if not k.is_deprecated && before now info.release_date
        then fail (error "stake is locked")
        else withdraw web3 k address id o
  ]

  unfoldable pub withdraw_stake : ℕ → Value → Value → Options → Staking → Run C Sent
  unfolding get_staking_info withdraw_from
  withdraw_stake now address id o s = do
    let hex = ensure_str_hex web3 id
    info ← get_staking_info address hex o s
    withdraw_from now address hex o info
