-- ===== src/Tokens.antt =====
-- The tokens that the application knows: src/common/tokens/{operations,reducers,actions,selectors}.js.
-- `addToken` does not wait for the tokens that it loads at its end; an exception there is nobody's.
use identity_wallet.Common.{List, [], ◌∷◌, ◌≡◌, refl, Result, ok, throw, type_error}
use identity_wallet.Schema.Text.{Text, codes}
use identity_wallet.Schema.Value.{Fields, end}
use identity_wallet.Staking.Chain.{Run, pure, ◌>>=◌}

pub record State : Type 0 where
  pub tokens : List Fields
  pub token_error : Text

abbrev pub initial_state : State
initial_state = record { tokens = []; token_error = [] }

pub data Action : Type 0 where
  tokens_set : List Fields → Action
  token_error_set : Text → Action

unfoldable pub tokens_reducer : State → Action → State
tokens_reducer s (Action.tokens_set tokens) = record s { tokens = tokens }
tokens_reducer s (Action.token_error_set error) = record s { token_error = error }

unfoldable pub all_tokens : State → List Fields
all_tokens s = s.tokens

unfoldable pub get_token_error : State → Text
get_token_error s = s.token_error

pub record Services (W : Type 0) : Type 0 where
  pub load_all : Run W (List Fields)
  pub get_token_info : Text → Run W Fields
  pub add : Fields → Run W (Unit {0})

pub record World (W : Type 0) : Type 0 where
  pub services : W
  pub state : State

module _ {W : Type 0} where
  abbrev dispatch : Action → Run (World W) (Unit {0})
  dispatch a w = (ok tt, record w { state = tokens_reducer w.state a })

  abbrev on_services : {A : Type 0} → Result A × W → World W → Result A × World W
  on_services (r, d) w = (r, record w { services = d })

  abbrev calling : {A : Type 0} → Run W A → Run (World W) A
  calling m w = on_services (m w.services) w

  abbrev rescued :
      Run (World W) (Unit {0}) → Result (Unit {0}) × World W → Result (Unit {0}) × World W
  rescued handler (ok u, w) = (ok u, w)
  rescued handler (throw x, w) = handler w

  abbrev unawaited : Result (Unit {0}) × World W → Result (Unit {0}) × World W
  unawaited (r, w) = (ok tt, w)

abbrev pub token_error_message : Text
token_error_message =
    codes "Token contract does not exist or not supported. Please double check and try again."

module _ {W : Type 0} (services : Services W) where
  unfoldable pub load_tokens : Run (World W) (Unit {0})
  unfolding tokens_reducer
  load_tokens = do tokens ← calling services.load_all; dispatch (Action.tokens_set tokens)

  unfoldable pub add_token : Text → Run (World W) (Unit {0})
  unfolding tokens_reducer load_tokens
  add_token contract_address = do
    added ← (λ w. rescued (dispatch (Action.token_error_set token_error_message)) (
        (do info ← calling (services.get_token_info contract_address); calling (services.add info))
          w))
    (λ w. unawaited (load_tokens w))

  unfoldable pub reset_token_error : Run (World W) (Unit {0})
  unfolding tokens_reducer
  reset_token_error = dispatch (Action.token_error_set [])

abbrev info_of : Text → Result Fields
info_of [] = throw type_error
info_of (c ∷ s) = ok end

abbrev test_services : Services Text
test_services = record {
  load_all = pure [];
  get_token_info = λ address w. (info_of address, w);
  add = λ info. pure tt;
}

-- A token that is added after a failure keeps the error of the failure.
abbrev after_failure : World Text
after_failure = (add_token test_services [] (record { services = []; state = initial_state })).1

add_token_test :
    (add_token test_services (codes "0xab") after_failure).1.state.token_error ≡ token_error_message
unfolding add_token
add_token_test = refl
