-- ===== src/Staking/Allowance.antt =====
-- That `placeStake` approves anew on every call, and what gas it sends.
use identity_wallet.Common.{
  ℕ, zero, suc, ◌≡◌, refl, ap, ◌∙◌, Option, none, some, List, [], ◌∷◌, if◌then◌else◌, Result, ok,
}
use identity_wallet.Common.Integer.{ℤ, pos, negsuc, minus, is_zero}
use identity_wallet.Schema.Text.{Text, codes}
use identity_wallet.Schema.Value.{Value, str}
use identity_wallet.Staking.Chain.{
  send, Options, Ticket, Run, pure, continue, ◌>>=◌, Web3, ensure_str_hex, ensure_int_hex,
  to_number,
}
use identity_wallet.Staking.Contracts.{
  Contract, Sent, send_ticket, contract_send, contract_call, approve, allowance, deposit,
}
use identity_wallet.Staking.Service.{Hashes, place_stake}

continue-ext :
    {A B C : Type 0} (f g : A → Run C B) (r : Result A × C)
    → ((a : A) (c : C) → f a c ≡ g a c)
    → continue f r ≡ continue g r
continue-ext f g (ok a, c) h = h a c
continue-ext f g (Result.throw x, c) h = refl

continue-pure :
    {A B D C : Type 0} (f : A → B) (g : B → Run C D) (r : Result A × C)
    → continue g (continue (λ a. pure (f a)) r) ≡ continue (λ a. g (f a)) r
continue-pure f g (ok a, c) = refl
continue-pure f g (Result.throw x, c) = refl

module _ {C : Type 0} (web3 : Web3 C) (token active : Contract) where
  abbrev approval : Value → Options → Ticket
  approval amount o =
      send_ticket web3 token (codes "approve")
        (str active.address ∷ ensure_int_hex web3 amount ∷ []) o

  abbrev staking : Value → Value → Value → Options → Ticket
  staking amount address id o =
      send_ticket web3 active (codes "deposit")
        (ensure_int_hex web3 amount ∷ address ∷ ensure_str_hex web3 id ∷ []) o

  -- The options of a transaction from `from` with a gas of `gas`.
  abbrev sending : Option Text → Option ℕ → ℤ → Options
  sending from price gas = record {
    from = from;
    method = some send;
    gas = some gas;
    gas_price = price;
    value = none;
  }

  abbrev sent : Contract → Value → Sent
  sent k hash = record { gas = none; hash = some hash; contract = k.address }

  abbrev hashes : Sent → Sent → Hashes
  hashes approved deposited = record { approve = some approved; deposit = deposited }

  -- The transactions of a stake: the approval, with 100000 gas, then the deposit, with the rest of
  -- the gas, which may be negative, or with 100000 where none is left.
  abbrev pub approve_and_deposit : Value → Value → Value → Option Text → Option ℕ → ℕ → Run C Hashes
  approve_and_deposit amount address id from price total = do
    let rest = minus total 100000
    approved ← web3.wait_for_ticket (approval amount (sending from price (pos 100000)))
    deposited ←
        web3.wait_for_ticket (
          staking amount address id
            (sending from price (if is_zero rest then pos 100000 else rest)))
    pure (hashes (sent token approved) (sent active deposited))

  -- What `placeStake` does after the approval.
  abbrev after_approval :
      Value → Value → Value → Option Text → Option ℕ → ℤ → Option Sent → Run C Hashes
  after_approval amount address id from price rest approved = do
    deposited ←
        deposit web3 active amount address id
          (record { from = from; method = none; gas = some rest; gas_price = price; value = none })
    pure (record { approve = approved; deposit = deposited })

  after_approval-hashes :
      (amount address id : Value) (from : Option Text) (price : Option ℕ) (rest : ℤ)
      (approved : Sent) (c : C)
      → after_approval amount address id from price rest (some approved) c
        ≡ (do
          deposited ← web3.wait_for_ticket (
              staking amount address id
                (sending from price (if is_zero rest then pos 100000 else rest)))
          pure (hashes approved (sent active deposited)))
            c
  unfolding deposit contract_send
  after_approval-hashes amount address id from price (pos zero) approved c =
      continue-pure (sent active) (λ deposited. pure (hashes approved deposited)) _
  after_approval-hashes amount address id from price (pos (suc n)) approved c =
      continue-pure (sent active) (λ deposited. pure (hashes approved deposited)) _
  after_approval-hashes amount address id from price (negsuc n) approved c =
      continue-pure (sent active) (λ deposited. pure (hashes approved deposited)) _

  -- The chain after the question for the allowance, of which the answer is not read.
  abbrev pub after_asking : Option Text → C → C
  after_asking from c =
      (allowance web3 token (str active.address)
        (record { from = from; method = none; gas = none; gas_price = none; value = none }) c).1

  -- With the contracts acquired, no method among the options and a positive amount of gas, placing a
  -- stake sends an approval and then the deposit, whatever allowance the chain reports.
  pub place_stake-approves :
      (amount address id : Value) (from : Option Text) (price : Option ℕ) (gas : ℕ)
      (old : List Contract) (c : C)
      → place_stake web3 amount address id
          (record {
            from = from;
            method = none;
            gas = some (pos (suc gas));
            gas_price = price;
            value = none;
          })
          (record {
            active_contract = some active;
            deprecated_contracts = old;
            token_contract = some token;
          })
          c
        ≡ approve_and_deposit amount address id from price (suc gas) (after_asking from c)
  unfolding place_stake approve deposit allowance contract_send contract_call to_number
  place_stake-approves amount address id from price gas old c =
      let rest = minus (suc gas) 100000 in
      let next = after_approval amount address id from price rest in
      ap (continue next) (continue-pure (sent token) (λ a. pure (some a)) _)
      ∙ continue-pure (λ hash. some (sent token hash)) next _
      ∙ continue-ext (λ hash. next (some (sent token hash))) _
          (web3.wait_for_ticket (approval amount (sending from price (pos 100000)))
            (after_asking from c))
          (λ hash d. after_approval-hashes amount address id from price rest (sent token hash) d)
