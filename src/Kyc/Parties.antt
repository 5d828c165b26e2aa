-- ===== src/Kyc/Parties.antt =====
-- The sessions of src/main/platform/relying-party.js as the relying parties of the operations.
use identity_wallet.Common.{ℕ, Option, none, or_else}
use identity_wallet.Schema.Text.{Text, codes}
use identity_wallet.Schema.Value.{Value}
use identity_wallet.Staking.Chain.{Run, pure}
use identity_wallet.Kyc.State.{Config, Token, Session}
use identity_wallet.Kyc.Session.{Remote, is_active}
use identity_wallet.Kyc.Session.Calls.{
  establish, list_kyc_templates, get_kyc_template, list_kyc_applications, create_kyc_application,
  get_kyc_application, update_kyc_application_payment,
}
use identity_wallet.Kyc.Operations.{RelyingParties}

-- `createRelyingPartySession`: a session starts without a token.
abbrev pub create_session : {W : Type 0} → Option Config → Run W Session
create_session config = pure (record { config = config; token = none })

abbrev pub relying_parties :
    {W : Type 0}
    → (Text → Text → Text)
    → Remote W
    → ℕ
    → (Text → Option Token)
    → (Value → Value)
    → RelyingParties W
relying_parties url_join remote now decode buffer_from_data_url = record {
  create_session = create_session;
  is_active = is_active now;
  establish = establish url_join remote now decode;
  list_kyc_templates = list_kyc_templates url_join remote;
  get_kyc_template = λ s id. get_kyc_template url_join remote s (or_else id (codes "undefined"));
  list_kyc_applications = list_kyc_applications url_join remote;
  create_kyc_application = create_kyc_application url_join remote buffer_from_data_url;
  get_kyc_application = get_kyc_application url_join remote;
  update_kyc_application_payment = update_kyc_application_payment url_join remote;
}
