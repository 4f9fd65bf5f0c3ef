-- ===== src/Web/Links.antt =====
-- The two functions that make a path of the application (internal/web): the handlers' and the
-- templates'.
use cnpg_portal.Prelude.{
  ==_iff, ℕ, ◌∙◌, ◌==◌, ◌||◌, ap, Text, codes, [], ◌∷◌, ◌++◌, ◌≡◌, refl, eq_text, is_empty,
  Bool-cases, inl, inr, if◌then◌else◌,
}
use cnpg_portal.Strings.{drop, trim_last, trim_prefix, has_prefix}
use cnpg_portal.Web.Context.{template_route, current_base}
use cnpg_portal.Web.Pages.{Handlers, route_path}

trim-current : (base : Text) → trim_last b'/' (current_base base) ≡ trim_last b'/' base
unfolding trim_last
trim-current [] = refl
trim-current (c ∷ base) = refl

-- the two ends of a path behind a base without its slash
abbrev linked : Text → Text → Text
linked base path =
    if is_empty path || eq_text path (codes "/")
    then if is_empty base then codes "/" else base ++ codes "/"
    else if has_prefix path (codes "/")
    then base ++ path
    else base ++ (codes "/" ++ path)

abbrev redirected : Text → Text → Text
redirected base path = base ++ (codes "/" ++ trim_prefix path (codes "/"))

slash : (base : Text) → (if is_empty base then codes "/" else base ++ codes "/") ≡ base ++ codes "/"
slash [] = refl
slash (c ∷ base) = refl

slashed :
    (base : Text) (c : ℕ) (path : Text)
    → c ≡ b'/'
    → (if eq_text path []
        then if is_empty base then codes "/" else base ++ codes "/"
        else base ++ c ∷ path)
      ≡ base ++ b'/' ∷ path
unfolding eq_text
slashed base c [] e = slash base
slashed base c (d ∷ path) e = ap (λ k. base ++ k ∷ d ∷ path) e

linked-eq : (base path : Text) → linked base path ≡ redirected base path
unfolding trim_prefix has_prefix eq_text drop
linked-eq base [] = slash base
linked-eq base (c ∷ path) = elim (Bool-cases (c == b'/')) [
  | inl t ↦ rw t (slashed base c path ((==_iff c b'/').0 t))
  | inr f ↦ rw f refl
]

-- A link in a page and a redirect of a handler of the same cluster lead to the same path, with or
-- without a slash at its start or behind the cluster's own path.
pub template_route-eq :
    (h : Handlers) (path : Text) → template_route h.base_path path ≡ route_path h path
unfolding template_route route_path
template_route-eq h path =
    ap (λ base. linked base path) (trim-current h.base_path)
    ∙ linked-eq (trim_last b'/' h.base_path) path
