-- ===== src/Result/Bind.antt =====
-- Chains of fallible steps without calls.
use cnpg_portal.Prelude.{◌≡◌, refl, Bool, true, false}
use cnpg_portal.Result.{Error, Result, ok, err}

-- if !test { return err }
abbrev pub require : Bool → Error → Result (Unit {0})
require false problem = err problem
require true problem = ok tt

module _ {ℓ κ} {A : Type ℓ} {B : Type κ} where
  infixl 5 ◌>>=◌
  abbrev pub ◌>>=◌ : Result A → (A → Result B) → Result B
  ◌>>=◌ (err problem) next = err problem
  ◌>>=◌ (ok value) next = next value

  -- what a chain that ends well has gone through
  pub >>=-eq-ok :
      (first : Result A) (next : A → Result B) {b : B}
      → (first >>= next) ≡ ok b
      → (a : A) × (first ≡ ok a) × (next a ≡ ok b)
  >>=-eq-ok (err problem) next e = cc
  >>=-eq-ok (ok value) next e = (value, refl, e)

module _ {ℓ} {B : Type ℓ} where
  infixl 5 ◌>>◌
  abbrev pub ◌>>◌ : Result (Unit {0}) → Result B → Result B
  step >> rest = step >>= λ u. rest

-- if err != nil { return wrap(err) }
abbrev pub map_err {ℓ} : {A : Type ℓ} → (Error → Error) → Result A → Result A
map_err wrap (err problem) = err (wrap problem)
map_err wrap (ok value) = ok value
