-- ===== src/Login/Connection.antt =====
-- `WSConnection`: the identities that are unlocked on it, and sending.
use identity_wallet.Common.{
  type_error, suc, Bool, true, false, Option, none, some, [], ◌∷◌, ◌++◌, if◌then◌else◌, Result, ok,
}
use identity_wallet.Common.Dict.{lookup, insert}
use identity_wallet.Schema.Text.{Text, codes, text_eq, decimal}
use identity_wallet.Staking.Chain.{fail, pure, Run}
use identity_wallet.Login.State.{
  Payload, Request, Body, problem, unknown_request, Connection, World,
}

-- A reply that carries `error`.
abbrev pub is_error : Body → Bool
is_error (problem code message) = true
is_error unknown_request = true
is_error _ = false

-- `msg.type`: that of the request, or `error`.
abbrev pub reply_type : Request → Body → Option Text
reply_type req body = elim req.type [
  | none ↦ if is_error body then some (codes "error") else none
  | some t ↦ some t
]

module _ {I : Type 0} where
  unfoldable pub add_identity : Text → I → Connection I → Connection I
  add_identity public_key identity c = record c {
    identities = insert public_key identity c.identities;
  }

  -- A key that is missing stands for `undefined`, under which no identity is added.
  unfoldable pub get_identity : Option Text → Connection I → Option I
  get_identity none c = none
  get_identity (some public_key) c = lookup public_key c.identities

  -- A request without an id is answered under the next id of the connection.
  unfoldable pub send : Body → Request → Connection I → Connection I
  send body req c = elim req.id [
    | some id ↦ record c {
      sent = c.sent ++ record { type = reply_type req body; id = id; body = body } ∷ [];
    }
    | none ↦ record c {
      msg_id = suc c.msg_id;
      sent =
          c.sent
          ++ record {
            type = reply_type req body;
            id = codes "idw-" ++ decimal c.msg_id;
            body = body;
          }
            ∷ [];
    }
  ]

module _ {D I : Type 0} where
  abbrev pub reply : Body → Request → Run (World D I) (Unit {0})
  reply body req w = (ok tt, record w { connection = send body req w.connection })

  abbrev pub back_to_connection : {A : Type 0} → Result A × D → World D I → Result A × World D I
  back_to_connection (r, d) w = (r, record w { services = d })

  -- A call of the services.
  abbrev pub calling : {A : Type 0} → Run D A → Run (World D I) A
  calling m w = back_to_connection (m w.services) w

  -- `try { … } catch (error) { … }`
  abbrev pub settle :
      {A B : Type 0} → (Result A → Run (World D I) B) → Result A × World D I → Result B × World D I
  settle f (r, w) = f r w

  infix 4 ◌on_settled◌
  abbrev pub ◌on_settled◌ :
      {A B : Type 0} → Run (World D I) A → (Result A → Run (World D I) B) → Run (World D I) B
  (m on_settled f) w = settle f (m w)

-- A result as a computation.
abbrev pub lift : {C A : Type 0} → Result A → Run C A
lift r c = (r, c)

-- `a.b` where `a` may be `undefined`.
abbrev pub present : {C A : Type 0} → Option A → Run C A
present none = fail type_error
present (some a) = pure a

-- What reads the payload, and throws if there is none.
abbrev pub for_payload : {C A : Type 0} → (Payload → Run C A) → Option Payload → Run C A
for_payload f none = fail type_error
for_payload f (some p) = f p

-- `if (!identity) return …;`
abbrev pub for_identity : {C I A : Type 0} → Run C A → (I → Run C A) → Option I → Run C A
for_identity refuse f none = refuse
for_identity refuse f (some i) = f i
