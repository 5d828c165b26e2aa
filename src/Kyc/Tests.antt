-- ===== src/Kyc/Tests.antt =====
-- Runs of the KYC operations with a relying party that answers every request.
use identity_wallet.Common.{ℕ, suc, refl, true, none, some, [], ◌∷◌, ◌++◌, ok}
use identity_wallet.Schema.Text.{codes, text_eq}
use identity_wallet.Common.Dict.{lookup, insert}
use identity_wallet.Schema.Value.{num}
use identity_wallet.Identity.State.{initial_state as identity}
use identity_wallet.Kyc.State.{
  Config, Token, Template, RelyingParty, undefined_error, initial_state, Action,
}
use identity_wallet.Kyc.Reducers.{reducer, update_relying_party_reducer}
use identity_wallet.Kyc.Reducers.Consistency.{IsValid, kyc_reducer-IsValid}
use identity_wallet.Kyc.Session.{Remote}
use identity_wallet.Kyc.Selectors.{ServiceDetails, rp_details}
use identity_wallet.Kyc.Operations.{
  RelyingParties, World, ErrorTexts, failed_party, load_relying_party_operation,
}
use identity_wallet.Kyc.Operations.Loading.{Stored, load_relying_party_operation-Stored}
use identity_wallet.Kyc.Parties.{relying_parties}

abbrev config : Config
config = record {
  root_endpoint = codes "https://rp";
  endpoints = none;
  website_url = none;
  origin = none;
}

abbrev token : Token
token = record { challenge = some (codes "c"); nonce = none; exp = 100; encoded = codes "t" }

abbrev template : Template
template = record { id = some (codes "1"); template_id = none; attributes = none }

abbrev remote : Remote ℕ
remote = record {
  public_key = λ n. (ok (codes "0xaa"), suc n);
  sign = λ m n. (ok (codes "s"), suc n);
  ask_jwt = λ r n. (ok (codes "j"), suc n);
  ask_templates = λ r n. (ok (template ∷ []), suc n);
  ask_template = λ r n. (ok template, suc n);
  ask_application = λ r n. (ok (record { id = codes "a" }), suc n);
  ask_applications = λ r n. (ok (record { id = codes "a" } ∷ []), suc n);
  ask_file = λ r n. (ok (num n), suc n);
  ask_done = λ r n. (ok tt, suc n);
}

abbrev parties : RelyingParties ℕ
parties = relying_parties (λ a b. a ++ codes "/" ++ b) remote 5000 (λ t. some token) (λ v. v)

abbrev bank : ServiceDetails
bank = record {
  status = some (codes "Active");
  description = none;
  relying_party_config = some config;
  kyc_template = some [];
}

abbrev texts : ErrorTexts
texts = record { status_text = λ x. none; code = λ x. none }

abbrev world : World ℕ
world = record {
  services = 0;
  store = record {
    kyc = initial_state;
    exchanges = (codes "bank", bank) ∷ [];
    identity = identity;
    wallet_id = 1;
    wallet_type = codes "ledger";
  };
  routes = [];
  pending = [];
  timeout = none;
  next_timeout = 0;
}

load_relying_party_operation-Stored_example :
    Stored parties texts [] 5000
      (codes "bank")
      true
      bank
      world
      (load_relying_party_operation parties texts [] 5000 (codes "bank") true none none world)
unfolding rp_details text_eq lookup
load_relying_party_operation-Stored_example =
    load_relying_party_operation-Stored parties texts [] 5000 (codes "bank") true bank none none
      world (λ e. cc) refl

initial_state-IsValid : IsValid initial_state
unfolding text_eq lookup
initial_state-IsValid = record { domain = λ n. refl; distinct = tt; keyed = λ n rp h. cc }

abbrev party : RelyingParty
party = record (failed_party (codes "bank") 7) { description = some (codes "a bank") }

kyc_reducer-IsValid_example : IsValid (record initial_state {
  relying_parties = codes "bank" ∷ [];
  relying_parties_by_name = (codes "bank", party) ∷ [];
})
unfolding reducer update_relying_party_reducer text_eq lookup insert
kyc_reducer-IsValid_example =
    kyc_reducer-IsValid initial_state (Action.rp_update (some party) undefined_error)
      (record initial_state {
        relying_parties = codes "bank" ∷ [];
        relying_parties_by_name = (codes "bank", party) ∷ [];
      })
      initial_state-IsValid refl
