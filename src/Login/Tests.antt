-- ===== src/Login/Tests.antt =====
-- The theorems on login, on a connection where one wallet is unlocked.
use identity_wallet.Common.{
  ℕ, suc, ◌≡◌, refl, inl, inr, false, none, some, [], ◌∷◌, ok, throw, type_error,
}
use identity_wallet.Schema.Text.{codes, text_eq}
use identity_wallet.Schema.Value.{str, end}
use identity_wallet.Login.State.{Payload, Request, unlock, Wallet, Services, World}
use identity_wallet.Login.Connection.{add_identity, get_identity, send}
use identity_wallet.Login.Requests.{handle_request, req_unlock}
use identity_wallet.Login.Replies.{Guarded, handle_request-Guarded}
use identity_wallet.Login.Accounting.{Accounted}
use identity_wallet.Login.Identities.{handle_request-Accounted}
use identity_wallet.Login.Unlocking.{unlock_request, req_unlock-adds}

abbrev wallet : Wallet
wallet = record { id = 1; public_key = codes "0xaa"; profile = codes "local" }

-- The state counts the attempts that are logged; the session fails.
abbrev services : Services ℕ ℕ ℕ
services = record {
  find_all = λ d. (ok (wallet ∷ []), d);
  find_by_public_key = λ k d. (ok (some wallet), d);
  has_signed_up_to = λ w url d. (ok false, d);
  unlock_identity = λ w password d. (ok 7, d);
  get_attributes_by_types = λ i ids d. (ok [], d);
  establish = λ config i d. (throw type_error, d);
  get_user_login_payload = λ s d. (ok (str []), d);
  create_user = λ s ats d. (ok tt, d);
  add_login_attempt = λ w a d. (ok tt, suc d);
  action_logs_add = λ l d. (ok tt, d);
  message_of = λ x. codes "failed";
  to_base64 = λ v. ok v;
  from_base64 = λ v. ok v;
}

abbrev world : World ℕ ℕ
world = record {
  services = 0;
  connection = record { identities = (codes "0xaa", 7) ∷ []; msg_id = 0; sent = [] };
}

abbrev payload : Payload
payload = record {
  public_key = some (codes "0xaa");
  password = none;
  config = some (record {
    website = some (record { name = codes "site"; url = codes "https://site" });
    rest = end;
  });
  requested_attributes = none;
  attributes = none;
}

abbrev request : Request
request = record { type = some (codes "auth"); id = some (codes "m1"); payload = some payload }

handle_request-Guarded_example :
    Guarded services request payload world (handle_request services request world)
handle_request-Guarded_example =
    handle_request-Guarded services request payload world refl (inr (inl refl))

req_unlock-adds_example :
    let request = unlock_request services (some (codes "unlock")) none (codes "0xaa") none in
    let added = add_identity (codes "0xaa") 7 world.connection in
    (req_unlock services request world ≡ (
      ok tt,
      record {
        services = 0;
        connection = send (unlock (some (codes "0xaa")) false (codes "local") none) request added;
      },
    ))
    × (get_identity (some (codes "0xaa")) added ≡ some 7)
req_unlock-adds_example =
    req_unlock-adds services (some (codes "unlock")) none (codes "0xaa") none world wallet 7 0 0
      refl refl

abbrev unlocking : Request
unlocking =
    unlock_request services (some (codes "unlock")) none (codes "0xbb") (some (codes "secret"))

handle_request-Accounted_example :
    Accounted services unlocking world (handle_request services unlocking world)
handle_request-Accounted_example = handle_request-Accounted services unlocking world
