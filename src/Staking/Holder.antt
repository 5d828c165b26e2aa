-- ===== src/Staking/Holder.antt =====
-- Which contract a stake is withdrawn from, over calls that leave the chain as it is.
use identity_wallet.Common.{
  ℕ, ◌≡◌, refl, ap, ◌∙◌, false, Option, none, some, List, [], ◌∷◌, if◌then◌else◌, Result, ok, throw,
  error, Bool-cases, inl, inr,
}
use identity_wallet.Schema.Value.{Value, num, truthy}
use identity_wallet.Staking.Chain.{
  call, Options, Ticket, Run, pure, continue, caught, ◌>>=◌, Web3, ensure_str_hex,
}
use identity_wallet.Staking.Contracts.{
  Contract, Sent, get_balance, withdraw, get_release_date, contract_call,
}
use identity_wallet.Staking.Service.{
  Staking, StakingInfo, contracts, before, empty_info, holder_info, find_info, get_staking_info,
  withdraw_from, withdraw_stake,
}

-- A ticket whose method is `call` leaves the chain as it is.
abbrev pub CallsReadOnly : {C : Type 0} → Web3 C → Type 0
CallsReadOnly {C} web3 = (t : Ticket) (c : C) → t.method ≡ call → (web3.wait_for_ticket t c).1 ≡ c

caught-eq :
    {A C : Type 0} (d : A) (r : Result A × C)
    → caught d r ≡ (elim r.0 [ ok v ↦ v | throw x ↦ d ], r.1)
caught-eq d (ok a, c) = refl
caught-eq d (throw x, c) = refl

pair-eq : {A C : Type 0} {c : C} (r : A × C) → r.1 ≡ c → r ≡ (r.0, c)
pair-eq (a, b) h = cc

module _ {C : Type 0} (web3 : Web3 C) (address id : Value) (o : Options) where
  -- The answer of the chain for the balance of a contract, 0 where the call fails.
  abbrev pub balance_of : C → Contract → Value
  balance_of c k = elim (get_balance web3 k address id o c).0 [ ok v ↦ v | throw x ↦ num 0 ]

  -- The first contract whose answer for its balance is truthy: a text is, also that of `"0"`.
  abbrev pub holder : C → List (Option Contract) → Option Contract
  holder c [] = none
  holder c (none ∷ ks) = holder c ks
  holder c (some k ∷ ks) =
      let rest = holder c ks in if truthy (balance_of c k) then some k else rest

  abbrev pub release_date_of : C → Contract → Result Value
  release_date_of c k = (get_release_date web3 k address id o c).0

  -- What withdrawing does, by the contract that holds the stake.
  abbrev pub withdraw_of : ℕ → Option Contract → Run C Sent
  withdraw_of now none c = (throw (error "no contract to withdraw from"), c)
  withdraw_of now (some k) c =
      if k.is_deprecated then withdraw web3 k address id o c else elim (release_date_of c k) [
        | throw x ↦ (throw x, c)
        | ok date ↦
            if before now date
            then (throw (error "stake is locked"), c)
            else withdraw web3 k address id o c
      ]

  module _ (read_only : CallsReadOnly web3) where
    get_balance-pure : (k : Contract) (c : C) → (get_balance web3 k address id o c).1 ≡ c
    unfolding get_balance contract_call
    get_balance-pure k c = read_only _ c refl

    get_release_date-pure : (k : Contract) (c : C) → (get_release_date web3 k address id o c).1 ≡ c
    unfolding get_release_date contract_call
    get_release_date-pure k c = read_only _ c refl

    caught-balance :
        (k : Contract) (c : C)
        → caught (num 0) (get_balance web3 k address id o c) ≡ (balance_of c k, c)
    caught-balance k c =
        caught-eq (num 0) (get_balance web3 k address id o c)
        ∙ ap (λ d. (balance_of c k, d)) (get_balance-pure k c)

    -- What the search returns, by the contract that holds the stake.
    abbrev info_of : C → Option Contract → Result StakingInfo × C
    info_of c none = (ok (empty_info web3 address id o), c)
    info_of c (some k) = holder_info web3 address id o k (balance_of c k) c

    find_info-holder :
        (ks : List (Option Contract)) (c : C)
        → find_info web3 address id o ks c ≡ info_of c (holder c ks)
    unfolding find_info
    find_info-holder [] c = refl
    find_info-holder (none ∷ ks) c = find_info-holder ks c
    find_info-holder (some k ∷ ks) c = elim (Bool-cases (truthy (balance_of c k))) [
      | inl held ↦ rw (caught-balance k c, held) refl
      | inr bare ↦ rw (caught-balance k c, bare) (find_info-holder ks c)
    ]

    withdraw_holder :
        (now : ℕ) (k : Contract) (balance : Value) (c : C)
        → (holder_info web3 address id o k balance >>= withdraw_from web3 now address id o) c
          ≡ withdraw_of now (some k) c
    unfolding holder_info withdraw_from
    withdraw_holder now k balance c = elim (Bool-cases k.is_deprecated) [
      | inl old ↦ rw old refl
      | inr active ↦ simp (
        active,
        before_date (get_release_date web3 k address id o c) (get_release_date-pure k c) active,
      )
    ]
      where
        before_date :
            (r : Result Value × C)
            → r.1 ≡ c
            → k.is_deprecated ≡ false
            → continue (withdraw_from web3 now address id o) (
                continue
                  (λ date. pure (record (empty_info web3 address id o) {
                    balance = balance;
                    contract = some k;
                    release_date = date;
                  }))
                  r)
              ≡ elim r.0 [
                | throw x ↦ (throw x, c)
                | ok date ↦
                    if before now date
                    then (throw (error "stake is locked"), c)
                    else withdraw web3 k address id o c
              ]
        before_date (throw x, d) e active = cc
        before_date (ok date, d) e active = elim (Bool-cases (before now date)) [
          | inl locked ↦ simp (active, e, locked)
          | inr free ↦ simp (active, e, free)
        ]

    withdraw_info-holder :
        (now : ℕ) (held : Option Contract) (c : C)
        → continue (withdraw_from web3 now address id o) (info_of c held) ≡ withdraw_of now held c
    unfolding withdraw_from
    withdraw_info-holder now none c = refl
    withdraw_info-holder now (some k) c = withdraw_holder now k (balance_of c k) c

module _ {C : Type 0} (web3 : Web3 C) (read_only : CallsReadOnly web3) where
  -- Where calls leave the chain as it is, withdrawing a stake is decided by the first of the active
  -- contract and the deprecated ones whose answer to the call for its balance is truthy in JavaScript,
  -- as every number but 0 is and every text but the empty one, "0" too; a call that throws counts
  -- as 0. If none is, it throws. If that contract is deprecated, it withdraws from it. If it is the
  -- active one, it withdraws from it unless the call for the release date throws or the date lies
  -- ahead, and then it throws and leaves the chain as it is.
  pub withdraw_stake-holder :
      (now : ℕ) (address id : Value) (o : Options) (s : Staking) (c : C)
      → let hex = ensure_str_hex web3 id in
        withdraw_stake web3 now address id o s c
        ≡ withdraw_of web3 address hex o now (holder web3 address hex o c (contracts s)) c
  unfolding withdraw_stake get_staking_info
  withdraw_stake-holder now address id o s c =
      let hex = ensure_str_hex web3 id in
      ap (continue (withdraw_from web3 now address hex o))
        (find_info-holder web3 address hex o read_only (contracts s) c)
      ∙ withdraw_info-holder web3 address hex o read_only now
          (holder web3 address hex o c (contracts s)) c
