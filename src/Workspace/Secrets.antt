-- ===== src/Workspace/Secrets.antt =====
-- When two tenants or two targets share the name of a Secret.
use cnpg_portal.Prelude.{
  if◌then◌else◌, Text, codes, [], ◌∷◌, ◌++◌, ◌≡◌, ◌≢◌, refl, arith, length, is_empty, ◌⊎◌, inl, inr,
  ap, ◌∙◌, sym, length-append,
}
use mathlib.Core.List.{append_cancel_right}
use cnpg_portal.Names.{dns1123_basename}
use cnpg_portal.Names.Labels.{IsLabelText, dns1123_basename-eq}
use cnpg_portal.Workspace.{Workspace, secret_name, credentials_suffix}

-- A prefix as the validation lets it through: none, or a label.
abbrev pub IsPrefixOk : Text → Type 0
IsPrefixOk p = (p ≡ []) ⊎ IsLabelText p

prefixed : Text → Text → Text
prefixed p app = dns1123_basename p ++ (b'-' ∷ dns1123_basename app)

prefixed-ne_base : (p app : Text) → prefixed p app ≢ dns1123_basename app
unfolding prefixed
prefixed-ne_base p app e =
    omega (arith, ap length e, length-append (dns1123_basename p) (b'-' ∷ dns1123_basename app))

prefixed_injective :
    (p q app : Text) → IsLabelText p → IsLabelText q → prefixed p app ≡ prefixed q app → p ≡ q
unfolding prefixed
prefixed_injective p q app l m e =
    sym (dns1123_basename-eq p l)
    ∙ append_cancel_right (dns1123_basename p) (dns1123_basename q) (b'-' ∷ dns1123_basename app) e
    ∙ dns1123_basename-eq q m

abbrev base_of : Text → Text → Text
base_of [] app = dns1123_basename app
base_of (c ∷ p) app = prefixed (c ∷ p) app

secret_name-base :
    (w : Workspace) (app : Text)
    → secret_name w app ≡ base_of w.secret_prefix app ++ credentials_suffix
unfolding secret_name prefixed
secret_name-base w app = go w.secret_prefix
  where
    go :
        (p : Text)
        → (if is_empty p
              then dns1123_basename app
              else dns1123_basename p ++ (codes "-" ++ dns1123_basename app))
            ++ credentials_suffix
          ≡ base_of p app ++ credentials_suffix
    go [] = refl
    go (c ∷ p) = refl

base_of_injective :
    (p q app : Text) → IsPrefixOk p → IsPrefixOk q → base_of p app ≡ base_of q app → p ≡ q
base_of_injective [] [] app h k e = refl
base_of_injective [] (d ∷ q) app h k e = absurd (prefixed-ne_base (d ∷ q) app (sym e))
base_of_injective (c ∷ p) [] app h k e = absurd (prefixed-ne_base (c ∷ p) app e)
base_of_injective (c ∷ p) (d ∷ q) app (inl h) k e = ground arith
base_of_injective (c ∷ p) (d ∷ q) app h (inl k) e = ground arith
base_of_injective (c ∷ p) (d ∷ q) app (inr h) (inr k) e =
    prefixed_injective (c ∷ p) (d ∷ q) app h k e

-- Two targets whose prefixes differ, each empty or a label, never give a tenant name the same
-- Secret.
pub secret_name-ne_of_prefix :
    (v w : Workspace) (app : Text)
    → IsPrefixOk v.secret_prefix
    → IsPrefixOk w.secret_prefix
    → v.secret_prefix ≢ w.secret_prefix
    → secret_name v app ≢ secret_name w app
secret_name-ne_of_prefix v w app h k differ e = differ (
    base_of_injective v.secret_prefix w.secret_prefix app h k (
      append_cancel_right (base_of v.secret_prefix app) (base_of w.secret_prefix app)
        credentials_suffix (sym (secret_name-base v app) ∙ e ∙ secret_name-base w app)))
