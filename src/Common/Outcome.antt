-- ===== src/Common/Outcome.antt =====
-- A call that may throw.
use Prim.Native.String.{String}
use mathlib.Core.Logic.{◌⊎◌, inl, inr}
use mathlib.Core.Path.{◌≡◌, refl}

-- `type_error` is what reading a field of `undefined` throws; `error` carries its message.
pub data Exception : Type 0 where
  type_error : Exception
  error : String → Exception

pub data Result {ℓ} (A : Type ℓ) : Type ℓ where
  ok : A → Result A
  throw : Exception → Result A

-- `let a = f(); return g(a);`: what comes after a call that threw is not reached.
module _ {ℓ κ} {A : Type ℓ} {B : Type κ} where
  infixl 5 ◌>>=◌
  abbrev pub ◌>>=◌ : Result A → (A → Result B) → Result B
  ok a >>= next = next a
  throw x >>= next = throw x

  pub >>=-eq-ok :
      (call : Result A) (next : A → Result B) {b : B}
      → (call >>= next) ≡ ok b
      → (a : A) × (call ≡ ok a) × (next a ≡ ok b)
  >>=-eq-ok (throw x) next returned = cc
  >>=-eq-ok (ok a) next returned = (a, refl, returned)

pub throw-ne-ok {ℓ} : {A : Type ℓ} {x : Exception} {a : A} → throw x ≡ ok a → ⊥
throw-ne-ok h = cc

pub Result-cases {ℓ} :
    {A : Type ℓ} (r : Result A) → ((a : A) × (r ≡ ok a)) ⊎ ((x : Exception) × (r ≡ throw x))
Result-cases (ok a) = inl (a, refl)
Result-cases (throw x) = inr (x, refl)
