-- ===== src/Staking/Chain.antt =====
-- What the staking code uses of src/main/blockchain/web3-service.js: a ticket is one call of a
-- contract's method. A call may throw, and it moves the chain on.
use identity_wallet.Common.{
  ℕ, Bool, Option, none, some, List, [], ◌∷◌, ◌≡◌, refl, if◌then◌else◌, Result, ok, throw,
  Exception,
}
use identity_wallet.Common.Integer.{ℤ}
use identity_wallet.Schema.Text.{Text, number_from}
use identity_wallet.Schema.Value.{Value, num, str}
use identity_wallet.Schema.Reference.{all_digits}

pub data Method : Type 0 where
  send call estimate_gas : Method

-- The options of a call. An absent field is `undefined`; gas that is not a number is absent too.
pub record Options : Type 0 where
  pub from : Option Text
  pub method : Option Method
  pub gas : Option ℤ
  pub gas_price : Option ℕ
  pub value : Option Text

pub record Ticket : Type 0 where
  pub method : Method
  pub contract_method_args : List Value
  pub contract_address : Text
  pub contract_method : Text
  pub custom_abi : Text
  pub once_listener_name : Option Text
  pub options : Options

-- A computation over a chain of type `C`.
abbrev pub Run : Type 0 → Type 0 → Type 0
Run C A = C → Result A × C

module _ {C : Type 0} where
  abbrev pub pure : {A : Type 0} → A → Run C A
  pure a c = (ok a, c)

  abbrev pub fail : {A : Type 0} → Exception → Run C A
  fail x c = (throw x, c)

  abbrev pub continue : {A B : Type 0} → (A → Run C B) → Result A × C → Result B × C
  continue f (ok a, c) = f a c
  continue f (throw x, c) = (throw x, c)

  infixl 5 ◌>>=◌
  abbrev pub ◌>>=◌ : {A B : Type 0} → Run C A → (A → Run C B) → Run C B
  (m >>= f) c = continue f (m c)

  -- `try { … } catch { … }` that gives `d` in place of an exception.
  abbrev pub caught : {A : Type 0} → A → Result A × C → A × C
  caught d (ok a, c) = (a, c)
  caught d (throw x, c) = (d, c)

  pub continue-ok :
      {A B : Type 0} (f : A → Run C B) (r : Result A × C) {b : B} {c' : C}
      → continue f r ≡ (ok b, c')
      → (a : A) × (c : C) × (r ≡ (ok a, c)) × (f a c ≡ (ok b, c'))
  continue-ok f (ok a, c) h = (a, c, refl, h)
  continue-ok f (throw x, c) h = cc

-- `waitForTicket`, and the functions of `web3.utils`.
pub record Web3 (C : Type 0) : Type 0 where
  pub wait_for_ticket : Ticket → Run C Value
  pub is_hex : Value → Bool
  pub ascii_to_hex : Value → Value
  pub number_to_hex : Value → Value

module _ {C : Type 0} (web3 : Web3 C) where
  unfoldable pub ensure_str_hex : Value → Value
  ensure_str_hex s = if web3.is_hex s then s else web3.ascii_to_hex s

  unfoldable pub ensure_int_hex : Value → Value
  ensure_int_hex n = if web3.is_hex n then n else web3.number_to_hex n

-- A number that is read from a value, `none` for `NaN`. Of the texts, which hold what the chain
-- returns, decimal numerals are read.
unfoldable pub to_number : Value → Option ℕ
unfolding number_from
to_number (num n) = some n
to_number (str []) = none
to_number (str (c ∷ s)) = if all_digits (c ∷ s) then some (number_from 0 (c ∷ s)) else none
to_number _ = none
