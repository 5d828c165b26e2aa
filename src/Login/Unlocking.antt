-- ===== src/Login/Unlocking.antt =====
-- Unlocking a wallet on a connection.
use identity_wallet.Common.{◌≡◌, refl, false, Option, none, some, arith, eq_refl, ok}
use identity_wallet.Common.Dict.{lookup-insert}
use identity_wallet.Schema.Text.{Text, text_eq}
use identity_wallet.Login.State.{Request, unlock, Wallet, Services, World, Connection}
use identity_wallet.Login.Connection.{add_identity, get_identity, send}
use identity_wallet.Login.Requests.{try_unlock, req_unlock}

get-add_identity :
    {I : Type 0} (k : Text) (i : I) (c : Connection I)
    → get_identity (some k) (add_identity k i c) ≡ some i
unfolding get_identity add_identity
get-add_identity k i c = ground (arith, lookup-insert k k i c.identities, eq_refl k)

module _ {D I S : Type 0} (services : Services D I S) (type id : Option Text) (k : Text)
    (password : Option Text) where
  -- A request to unlock the wallet of key `k` that has no `config`.
  abbrev pub unlock_request : Request
  unlock_request = record {
    type = type;
    id = id;
    payload = some (record {
      public_key = some k;
      password = password;
      config = none;
      requested_attributes = none;
      attributes = none;
    });
  }

  -- Where the wallet is found and the password unlocks it, a request to unlock that has no config is
  -- answered as having failed, and the identity is on the connection all the same.
  pub req_unlock-adds :
      (w : World D I) (wallet : Wallet) (i : I) (d d' : D)
      → services.find_by_public_key (some k) w.services ≡ (ok (some wallet), d)
      → services.unlock_identity wallet password d ≡ (ok i, d')
      → let added = add_identity k i w.connection in
        (req_unlock services unlock_request w ≡ (
          ok tt,
          record {
            services = d';
            connection = send (unlock (some k) false wallet.profile none) unlock_request added;
          },
        ))
        × (get_identity (some k) added ≡ some i)
  unfolding req_unlock try_unlock
  req_unlock-adds w wallet i d d' found opened =
      (rw (found, opened) refl, get-add_identity k i w.connection)
