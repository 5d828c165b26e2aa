-- ===== src/Staking/Tests.antt =====
-- The theorems on staking, on a chain that counts the transactions that it is sent.
use identity_wallet.Common.{
  ℕ, suc, ◌≡◌, refl, Bool, true, false, Option, none, some, List, [], ◌∷◌, Result, ok, nat_eq,
}
use identity_wallet.Common.Integer.{pos}
use identity_wallet.Schema.Text.{Text, codes, text_eq}
use identity_wallet.Schema.Value.{Value, num, str, truthy}
use identity_wallet.Staking.Chain.{
  Method, send, call, estimate_gas, Options, Web3, ensure_str_hex, to_number,
}
use identity_wallet.Staking.Contracts.{
  Contract, withdraw, contract_send, contract_call, get_balance, get_release_date,
}
use identity_wallet.Staking.Service.{Staking, contracts, place_stake, withdraw_stake}
use identity_wallet.Staking.Holder.{CallsReadOnly, holder, withdraw_of, withdraw_stake-holder}
use identity_wallet.Staking.Allowance.{approve_and_deposit, after_asking, place_stake-approves}
use identity_wallet.Staking.Config.{Entity, Config, parse_remote_config}
use identity_wallet.Staking.Config.Latest.{Latest, parse_remote_config-Latest}

abbrev answer : Method → ℕ → Result Value × ℕ
answer call n = (ok (num 50), n)
answer send n = (ok (num n), suc n)
answer estimate_gas n = (ok (num 0), n)

abbrev web3 : Web3 ℕ
web3 = record {
  wait_for_ticket = λ t n. answer t.method n;
  is_hex = λ v. true;
  ascii_to_hex = λ v. v;
  number_to_hex = λ v. v;
}

answer-read_only : (m : Method) (n : ℕ) → m ≡ call → (answer m n).1 ≡ n
answer-read_only call n e = refl
answer-read_only send n e = cc
answer-read_only estimate_gas n e = refl

web3-CallsReadOnly : CallsReadOnly web3
web3-CallsReadOnly t n e = answer-read_only t.method n e

abbrev contract : Text → Bool → Contract
contract address old = record { address = address; abi = []; is_deprecated = old }

abbrev staking : Staking
staking = record {
  active_contract = some (contract (codes "0xaa") false);
  deprecated_contracts = contract (codes "0xbb") true ∷ [];
  token_contract = some (contract (codes "0xcc") false);
}

abbrev options : Options
options = record {
  from = some (codes "0x11");
  method = none;
  gas = some (pos 150000);
  gas_price = some 7;
  value = none;
}

abbrev owner : Value
owner = str (codes "0x22")

abbrev service : Value
service = str (codes "0x33")

-- The active contract holds 50, which is released at 50: at 60 the stake is withdrawn.
withdrawn :
    withdraw_stake web3 60 owner service options staking 0
    ≡ (ok (record { gas = none; hash = some (num 0); contract = codes "0xaa" }), 1)
unfolding withdraw_stake ensure_str_hex to_number withdraw contract_send contract_call get_balance
    get_release_date truthy
withdrawn = refl

withdraw_stake-holder_example :
    withdraw_stake web3 60 owner service options staking 0
    ≡ withdraw_of web3 owner
        (ensure_str_hex web3 service)
        options
        60
        (holder web3 owner (ensure_str_hex web3 service) options 0 (contracts staking))
        0
withdraw_stake-holder_example =
    withdraw_stake-holder web3 web3-CallsReadOnly 60 owner service options staking 0

-- A chain that answers with texts: the active contract, whose balance is the text of zero, is taken.
abbrev text_web3 : Web3 ℕ
text_web3 = record web3 { wait_for_ticket = λ t n. (ok (str (codes "0")), n) }

zero_text_test :
    holder text_web3 owner service options 0 (contracts staking)
    ≡ some (contract (codes "0xaa") false)
unfolding get_balance contract_call truthy
zero_text_test = refl

place_stake-approves_example :
    place_stake web3 (num 25) owner service options staking 3
    ≡ approve_and_deposit web3
        (contract (codes "0xcc") false)
        (contract (codes "0xaa") false)
        (num 25)
        owner
        service
        (some (codes "0x11"))
        (some 7)
        150000
        (after_asking web3
          (contract (codes "0xcc") false)
          (contract (codes "0xaa") false)
          (some (codes "0x11"))
          3)
place_stake-approves_example =
    place_stake-approves web3 (contract (codes "0xcc") false) (contract (codes "0xaa") false)
      (num 25) owner service (some (codes "0x11")) (some 7) 149999
      (contract (codes "0xbb") true ∷ []) 3

abbrev entity : Text → Bool → Option Text → Entity
entity address old at = record { address = address; abi = none; deprecated = old; created_at = at }

abbrev entities : List Entity
entities =
    entity (codes "0xaa") false (some (codes "b"))
    ∷ entity (codes "0xbb") true (some (codes "c"))
    ∷ entity (codes "0xdd") false none
    ∷ []

-- Times are read as the first letter, and every text parses.
abbrev time_of : Text → ℕ
time_of [] = 0
time_of (c ∷ s) = c

abbrev parse_json : Text → Result Text
parse_json s = ok s

parse_remote_config-Latest_example :
    (r : Config) × (parse_remote_config time_of parse_json entities ≡ ok r)
    × Latest time_of parse_json r.active_contract entities
parse_remote_config-Latest_example =
    parse_remote_config-Latest time_of parse_json entities
      ((codes "{}", refl), ((codes "{}", refl), ((codes "{}", refl), tt)))
