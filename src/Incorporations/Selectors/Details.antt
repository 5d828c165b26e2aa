-- ===== src/Incorporations/Selectors/Details.antt =====
-- Where the details of a company are looked for.
use identity_wallet.Common.{
  Option, none, some, List, [], ◌∷◌, ◌++◌, ◌≡◌, refl, sym, ◌∙◌, Result, ok, throw, ◌>>=◌,
  Bool-cases, inl, inr,
}
use identity_wallet.Schema.Value.{Value, Fields}
use identity_wallet.Incorporations.State.{State}
use identity_wallet.Incorporations.Selectors.{
  has_code, find_code, get_corporations, get_llcs, get_foundations, get_trusts, or_next,
  get_details_for_company_code,
}

find_code-append :
    (code : Value) (xs ys : List (Option Fields))
    → find_code code (xs ++ ys) ≡ (find_code code xs >>= or_next (find_code code ys))
unfolding find_code
find_code-append code [] ys = refl
find_code-append code (none ∷ xs) ys = refl
find_code-append code (some x ∷ xs) ys = elim (Bool-cases (has_code code x)) [
  | inl here ↦ rw here refl
  | inr other ↦ rw other (find_code-append code xs ys)
]

or_next_chain :
    (c l f t : Result (Option Fields))
    → (c >>= λ x. or_next l x >>= λ y. or_next f y >>= λ z. or_next t z)
      ≡ (((c >>= or_next l) >>= or_next f) >>= or_next t)
or_next_chain (throw x) l f t = refl
or_next_chain (ok (some r)) l f t = refl
or_next_chain (ok none) (throw x) f t = refl
or_next_chain (ok none) (ok (some r)) f t = refl
or_next_chain (ok none) (ok none) f t = refl

-- The details of a company are those of the first row with its code among the corporations, the LLCs,
-- the foundations and the trusts, in this order; where a row is missing before that, reading throws.
pub get_details_for_company_code-find :
    (s : State) (code : Value)
    → get_details_for_company_code s code
      ≡ find_code code (get_corporations s ++ get_llcs s ++ get_foundations s ++ get_trusts s)
unfolding get_details_for_company_code
get_details_for_company_code-find s code =
    or_next_chain (find_code code (get_corporations s)) (find_code code (get_llcs s))
      (find_code code (get_foundations s)) (find_code code (get_trusts s))
    ∙ sym (
        find_code-append code (get_corporations s ++ get_llcs s ++ get_foundations s) (get_trusts s)
        ∙ rw
            (
              find_code-append code (get_corporations s ++ get_llcs s) (get_foundations s),
              find_code-append code (get_corporations s) (get_llcs s),
            )
            refl)
