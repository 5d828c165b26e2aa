-- ===== src/Wallet/Replacing.antt =====
-- What `walletReducer` of src/common/wallet/reducers.js makes of a wallet that replaces another, after
-- `updateWalletWithBalance` of src/common/wallet/operations.js.
use identity_wallet.Common.{false, ◌≡◌, refl, arith, ◌==◌, if◌then◌else◌}
use identity_wallet.Schema.Text.{Text, text_eq}
use identity_wallet.Schema.Value.{Value, Fields, end, field, get, put, has_field}
use identity_wallet.Wallet.Store.{assign, has_field-put}

-- An object has each own property once.
abbrev pub IsProper : Fields → Type 0
IsProper end = Unit {0}
IsProper (field j v o) = (has_field j o ≡ false) × IsProper o

get-put :
    (k j : Text) (v : Value) (o : Fields) → get k (put j v o) ≡ (if k == j then v else get k o)
unfolding get put
get-put k j v end = refl
get-put k j v (field i w o) = ground (arith, get-put k j v o)

IsProper-put : (k : Text) (v : Value) (o : Fields) → IsProper o → IsProper (put k v o)
unfolding put has_field
IsProper-put k v end h = (refl, tt)
IsProper-put k v (field j w o) h = ground (arith, IsProper-put k v o h.1, has_field-put j k v o)

get-assign :
    (k : Text) (o p : Fields)
    → IsProper p
    → get k (assign o p) ≡ (if has_field k p then get k p else get k o)
unfolding assign has_field get
get-assign k o end h = refl
get-assign k o (field j v p) h =
    ground (arith, get-assign k (put j v o) p h.1, get-put k j v o, h.0)

-- A wallet with a balance that replaces another.
pub get-assign-put :
    (k j : Text) (v : Value) (o p : Fields)
    → IsProper p
    → get k (assign o (put j v p))
      ≡ (if k == j then v else if has_field k p then get k p else get k o)
get-assign-put k j v o p h = ground (
  arith,
  get-assign k o (put j v p) (IsProper-put j v p h),
  has_field-put k j v p,
  get-put k j v p,
)
