-- ===== src/App/State.antt =====
-- The state of the application, its actions, its reducer and its selectors. `walletsLoading` is a value,
-- since the code sets it to a text as well.
use identity_wallet.Common.{Bool, true, false, List, [], ◌∷◌}
use identity_wallet.Schema.Text.{Text, codes}
use identity_wallet.Schema.Value.{Value, bool, num, Fields, end, get, strict_eq}
use identity_wallet.Wallet.Service.{HardwareWallet}

pub record State : Type 0 where
  pub wallets_loading : Value
  pub wallets : List Fields
  pub hardware_wallets : List HardwareWallet
  pub error : Text
  pub wallet_type : Text
  pub settings : Fields
  pub is_online : Bool
  pub go_back_path : Text
  pub go_next_path : Text

abbrev pub initial_state : State
initial_state = record {
  wallets_loading = bool false;
  wallets = [];
  hardware_wallets = [];
  error = [];
  wallet_type = [];
  settings = end;
  is_online = true;
  go_back_path = [];
  go_next_path = [];
}

pub data Action : Type 0 where
  set_wallets : List Fields → Action
  set_settings : Fields → Action
  set_hardware_wallets : List HardwareWallet → Action
  set_unlock_wallet_error : Text → Action
  set_wallet_type : Text → Action
  set_wallets_loading : Value → Action
  set_network_status : Bool → Action
  set_go_back_path : Text → Action
  set_go_next_path : Text → Action

unfoldable pub app_reducer : State → Action → State
app_reducer s (Action.set_wallets wallets) = record s { wallets = wallets }
app_reducer s (Action.set_settings settings) = record s { settings = settings }
app_reducer s (Action.set_hardware_wallets wallets) = record s { hardware_wallets = wallets }
app_reducer s (Action.set_unlock_wallet_error message) = record s { error = message }
app_reducer s (Action.set_wallet_type type) = record s { wallet_type = type }
app_reducer s (Action.set_wallets_loading loading) = record s { wallets_loading = loading }
app_reducer s (Action.set_network_status is_online) = record s { is_online = is_online }
app_reducer s (Action.set_go_back_path path) = record s { go_back_path = path }
app_reducer s (Action.set_go_next_path path) = record s { go_next_path = path }

unfoldable pub has_connected : State → Bool
has_connected s = elim s.hardware_wallets [ [] ↦ false | h ∷ hs ↦ true ]

unfoldable pub has_accepted_tracking : State → Bool
has_accepted_tracking s = strict_eq (get (codes "crashReportAgreement") s.settings) (num 1)
