-- ===== src/Staking/Contracts.antt =====
-- `EtheriumContract`, `StakingContract` and `SelfKeyTokenContract`.
use identity_wallet.Common.{
  ℕ, Bool, true, false, Option, none, some, List, [], ◌∷◌, if◌then◌else◌, or_else, ok,
}
use identity_wallet.Common.Integer.{ℤ, pos, is_zero}
use identity_wallet.Schema.Text.{Text, codes}
use identity_wallet.Schema.Value.{Value, undefined, str}
use identity_wallet.Staking.Chain.{
  Method, send, call, estimate_gas, Options, Ticket, Run, pure, ◌>>=◌, Web3, ensure_str_hex,
  ensure_int_hex,
}

-- A contract. The token's is never deprecated.
pub record Contract : Type 0 where
  pub address : Text
  pub abi : Text
  pub is_deprecated : Bool

-- What `send` returns: `gas` of an estimate, `hash` of a transaction.
pub record Sent : Type 0 where
  pub gas : Option ℕ
  pub hash : Option Value
  pub contract : Text

-- `if (!opt.gas) opt.gas = 100000`
abbrev pub gas_or_default : Option ℤ → Option ℤ
gas_or_default none = some (pos 100000)
gas_or_default (some g) = if is_zero g then some (pos 100000) else some g

abbrev pub sends : Method → Bool
sends send = true
sends _ = false

abbrev pub estimates : Method → Bool
estimates estimate_gas = true
estimates _ = false

-- `{ method: 'send', ...options }`
abbrev pub to_send : Options → Options
to_send o = record o { method = some (or_else o.method send) }

abbrev pub text_or_null : Option Text → Value
text_or_null none = undefined
text_or_null (some s) = str s

module _ {C : Type 0} (web3 : Web3 C) where
  abbrev pub send_ticket : Contract → Text → List Value → Options → Ticket
  send_ticket k method args o =
      let m = or_else o.method send in
      record {
        method = m;
        contract_method_args = args;
        contract_address = k.address;
        contract_method = method;
        custom_abi = k.abi;
        once_listener_name = if sends m then some (codes "transactionHash") else none;
        options = record o { gas = gas_or_default o.gas };
      }

  unfoldable pub contract_send : Contract → Text → List Value → Options → Run C Sent
  contract_send k method args o =
      if estimates (or_else o.method send)
      then pure (record { gas = some 100000; hash = none; contract = k.address })
      else do
        hash ← web3.wait_for_ticket (send_ticket k method args o)
        pure (record { gas = none; hash = some hash; contract = k.address })

  abbrev pub call_ticket : Contract → Text → List Value → Options → Ticket
  call_ticket k method args o = record {
    method = call;
    contract_method_args = args;
    contract_address = k.address;
    contract_method = method;
    custom_abi = k.abi;
    once_listener_name = none;
    options = o;
  }

  -- The field `res` of what `call` resolves to.
  unfoldable pub contract_call : Contract → Text → List Value → Options → Run C Value
  contract_call k method args o = web3.wait_for_ticket (call_ticket k method args o)

  unfoldable pub get_balance : Contract → Value → Value → Options → Run C Value
  unfolding contract_call
  get_balance k address id o =
      contract_call k (codes "balances")
        (text_or_null o.from ∷ address ∷ ensure_str_hex web3 id ∷ []) o

  unfoldable pub deposit : Contract → Value → Value → Value → Options → Run C Sent
  unfolding contract_send
  deposit k amount address id o =
      contract_send k (codes "deposit")
        (ensure_int_hex web3 amount ∷ address ∷ ensure_str_hex web3 id ∷ []) (to_send o)

  unfoldable pub withdraw : Contract → Value → Value → Options → Run C Sent
  unfolding contract_send
  withdraw k address id o =
      contract_send k (codes "withdraw") (address ∷ ensure_str_hex web3 id ∷ []) (to_send o)

  unfoldable pub get_release_date : Contract → Value → Value → Options → Run C Value
  unfolding contract_call
  get_release_date k address id o =
      contract_call k (codes "releaseDates")
        (text_or_null o.from ∷ address ∷ ensure_str_hex web3 id ∷ []) o

  unfoldable pub get_lock_period : Contract → Value → Value → Options → Run C Value
  unfolding contract_call
  get_lock_period k address id o =
      contract_call k (codes "lockPeriods") (address ∷ ensure_str_hex web3 id ∷ []) o

  unfoldable pub approve : Contract → Value → Value → Options → Run C Sent
  unfolding contract_send
  approve token vault max o =
      contract_send token (codes "approve") (vault ∷ ensure_int_hex web3 max ∷ []) (to_send o)

  -- `this.call(…).res`: the call is made, but `res` is read of its promise, where it is `undefined`,
  -- whatever the call resolves to, and if it rejects.
  unfoldable pub allowance : Contract → Value → Options → Run C Value
  unfolding contract_call
  allowance token vault o c =
      let (answer, c') =
        contract_call token (codes "allowance") (text_or_null o.from ∷ vault ∷ []) o c in
      (ok undefined, c')
