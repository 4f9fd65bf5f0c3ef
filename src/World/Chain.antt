-- ===== src/World/Chain.antt =====
-- Chains of calls.
use cnpg_portal.Prelude.{◌≡◌, refl, Bool, true, false}
use cnpg_portal.Result.{Error, Result, ok, err}
use cnpg_portal.World.{
  ask_text, ask_done, ask_secret, ask_backups, ask_backup, ask_cluster, ask_pods, ask_number, Exec,
  History,
}

module _ {ℓ} {A : Type ℓ} where
  unfoldable pub pure : A → Exec A
  pure a h = (ok a, h)

  unfoldable pub raise : Error → Exec A
  raise e h = (err e, h)

  unfoldable pub lift : Result A → Exec A
  lift r h = (r, h)

unfoldable pub require : Bool → Error → Exec (Unit {0})
unfolding pure raise
require true e = pure tt
require false e = raise e

module _ {ℓ κ} {A : Type ℓ} {B : Type κ} where
  abbrev pub continue : Result A → (A → Exec B) → Exec B
  continue (ok a) f h = f a h
  continue (err e) f h = (err e, h)

  infixl 5 ◌>>=◌
  -- opening this opens the other steps of a chain too
  unfoldable pub ◌>>=◌ : Exec A → (A → Exec B) → Exec B
  unfolding pure raise lift require ask_text ask_done ask_secret ask_backups ask_backup ask_cluster
      ask_pods ask_number
  ◌>>=◌ m f h = let (r, h') = m h in continue r f h'

module _ {ℓ} {B : Type ℓ} where
  infixl 5 ◌>>◌
  abbrev pub ◌>>◌ : Exec (Unit {0}) → Exec B → Exec B
  m >> k = m >>= λ _. k

-- if err != nil { return fmt.Errorf("…: %w", err) }
module _ {ℓ} {A : Type ℓ} where
  abbrev pub rename_error : (Error → Error) → Result A → Result A
  rename_error f (ok a) = ok a
  rename_error f (err e) = err (f e)

  unfoldable pub annotate : (Error → Error) → Exec A → Exec A
  annotate f m h = let (r, h') = m h in (rename_error f r, h')

  -- what a call returned, its error included, as a value: `x, err := …`
  unfoldable pub outcome : Exec A → Exec (Result A)
  outcome m h = let (r, h') = m h in (ok r, h')

-- Inversion of a chain that ends well.
pub bind-eq-ok {ℓ κ} :
    {A : Type ℓ} {B : Type κ} (m : Exec A) (f : A → Exec B) (h : History) {b : B} {h' : History}
    → (m >>= f) h ≡ (ok b, h')
    → (a : A) × (h₁ : History) × (m h ≡ (ok a, h₁)) × (f a h₁ ≡ (ok b, h'))
unfolding ◌>>=◌
bind-eq-ok {A} {B} m f h {b} {h'} e = go (m h).0 (m h).1 refl e
  where
    go :
        (r : Result A) (h₁ : History)
        → m h ≡ (r, h₁)
        → continue r f h₁ ≡ (ok b, h')
        → (a : A) × (h₂ : History) × (m h ≡ (ok a, h₂)) × (f a h₂ ≡ (ok b, h'))
    go (ok a) h₁ p q = (a, h₁, p, q)
    go (err x) h₁ p q = absurd (cc q)
