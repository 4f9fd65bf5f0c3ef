-- ===== src/Names.antt =====
-- internal/pg/sql.go: the names that may reach SQL and argv; and the three copies of the routine
-- that turns a tenant name into a DNS-1123 label (internal/workspace/workspace.go,
-- internal/tenant/k8sname.go, internal/cnpg/cluster.go). The regular expressions are written out.
pub mod Labels
pub mod Lengths
use cnpg_portal.Prelude.{
  ℕ, Text, codes, [], ◌∷◌, ◌++◌, Bool, true, false, ◌&&◌, ◌||◌, ◌==◌, leb, if◌then◌else◌, all, keep,
  length, is_empty,
}
use cnpg_portal.Strings.{to_lower, trim, trim_space, replace_all}
use cnpg_portal.Strings.Dashes.{dash, collapse}

abbrev pub is_lower : ℕ → Bool
is_lower c = leb b'a' c && leb c b'z'

abbrev pub is_digit : ℕ → Bool
is_digit c = leb b'0' c && leb c b'9'

abbrev pub ident_rune : ℕ → Bool
ident_rune c = is_lower c || is_digit c || c == b'_'

abbrev pub database_rune : ℕ → Bool
database_rune c = ident_rune c || c == dash

-- ^[a-z][a-z0-9_]{0,62}$
unfoldable pub ident_safe : Text → Bool
ident_safe [] = false
ident_safe (c ∷ s) = is_lower c && (all ident_rune s && leb (length s) 62)

-- ^[a-z][a-z0-9_-]{0,62}$
unfoldable pub database_name_safe : Text → Bool
database_name_safe [] = false
database_name_safe (c ∷ s) = is_lower c && (all database_rune s && leb (length s) 62)

abbrev pub label_rune : ℕ → Bool
label_rune c = is_lower c || is_digit c || c == dash

abbrev pub is_dash : ℕ → Bool
is_dash c = c == dash

-- if s == "" { s = "app" }
abbrev pub or_app : Text → Text
or_app [] = codes "app"
or_app (c ∷ s) = c ∷ s

-- lower case, underscores to hyphens, other runes dropped, runs of hyphens collapsed, ends trimmed
unfoldable pub dns1123_basename : Text → Text
dns1123_basename app =
    let s = replace_all b'_' (dash ∷ []) (trim_space (to_lower app)) in
    let kept = keep label_rune s in or_app (trim is_dash (collapse kept))

unfoldable pub dns1123_label : Text → Text
dns1123_label app =
    let s = replace_all b'_' (dash ∷ []) (trim_space (to_lower app)) in
    let kept = keep label_rune s in or_app (trim is_dash (collapse kept))

unfoldable pub dns1123_base : Text → Text
dns1123_base s =
    let lowered = replace_all b'_' (dash ∷ []) (trim_space (to_lower s)) in
    let kept = keep label_rune lowered in or_app (trim is_dash (collapse kept))
