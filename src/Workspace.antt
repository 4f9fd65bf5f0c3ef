-- ===== src/Workspace.antt =====
-- internal/workspace/workspace.go: the marker file's targets, their defaults and their validation.
-- A map is an association list in the order in which Go's iteration meets it. The YAML parser is
-- a parameter of `load_catalog`; discovery by the environment and the working directory is the
-- list of folders that `find_catalog` is given.
pub mod Catalog
pub mod Confinement
pub mod Selection
pub mod Defaults
pub mod Secrets
use cnpg_portal.Prelude.{
  ℕ, Text, codes, eq_text, List, [], ◌∷◌, ◌++◌, Bool, true, false, not, ◌&&◌, ◌||◌, ◌==◌, ltb, leb,
  Option, none, some, if◌then◌else◌, is_empty, all, length, take, ◌+◌,
}
use cnpg_portal.Strings.{last_index, drop, last?, has_prefix}
use cnpg_portal.Names.{dns1123_basename, label_rune, is_digit, is_dash}
use cnpg_portal.Paths.{clean, join_path, is_abs, dotdot, slash}
use cnpg_portal.Result.{Error, Result, ok, err, message, message_about}
use cnpg_portal.Result.Bind.{◌>>◌, ◌>>=◌}

pub record Workspace : Type 0 where
  pub root : Text
  pub id : Text
  pub display_name : Text
  pub cluster_yaml : Text
  pub secrets_dir : Text
  pub namespace : Text
  pub pod : Text
  pub container : Text
  pub cluster_name : Text
  pub service_name : Text
  pub secret_prefix : Text

unfoldable pub cluster_yaml_path : Workspace → Text
cluster_yaml_path w = join_path (w.root ∷ w.cluster_yaml ∷ [])

-- "-pg-credentials"
abbrev pub credentials_suffix : Text
credentials_suffix = codes "-pg-credentials"

unfoldable pub secret_name : Workspace → Text → Text
secret_name w app =
    let base = dns1123_basename app in
    let prefixed = dns1123_basename w.secret_prefix ++ (codes "-" ++ base) in
    (if is_empty w.secret_prefix then base else prefixed) ++ credentials_suffix

unfoldable pub secret_path : Workspace → Text → Text
secret_path w app =
    join_path (w.root ∷ w.secrets_dir ∷ (secret_name w app ++ codes ".sops.yaml") ∷ [])

abbrev ends_in_dash : Option ℕ → Bool
ends_in_dash none = false
ends_in_dash (some d) = is_dash d

-- every rune of a valid ID is one byte, so that the bytes and the runes of the text are as many
unfoldable pub valid_cluster_id : Text → Bool
valid_cluster_id [] = false
valid_cluster_id (c ∷ s) =
    not (ltb 63 (length (c ∷ s)) || (is_dash c || ends_in_dash (last? (c ∷ s))))
    && all label_rune (c ∷ s)

abbrev pub or_else : Text → Text → Text
or_else [] default = default
or_else (c ∷ s) default = c ∷ s

-- `postgres-main-1` gives `postgres-main`; a pod of another form gives ""
unfoldable pub cluster_of_pod : Text → Text
cluster_of_pod pod = elim (last_index b'-' pod) [
  | none ↦ []
  | some i ↦
      let suffix = drop (i + 1) pod in
      if ltb 0 i && (not (is_empty suffix) && all is_digit suffix) then take i pod else []
]

unfoldable pub apply_defaults : Workspace → Workspace
apply_defaults w =
    let cluster = or_else w.cluster_name (cluster_of_pod w.pod) in
    record w {
      secrets_dir = or_else w.secrets_dir (codes "secrets/pg");
      namespace = or_else w.namespace (codes "pg");
      container = or_else w.container (codes "postgres");
      cluster_name = cluster;
      service_name = or_else w.service_name cluster;
    }

unfoldable pub validate_relative_path : Text → Text → Bool → Result (Unit {0})
validate_relative_path field value file =
    if is_empty value
    then if file then err (message_about (codes "%s is required") field) else ok tt
    else if is_abs value
    then err (message_about (codes "%s must be relative to the workspace root") field)
    else if eq_text (clean value) dotdot || has_prefix (clean value) (dotdot ++ slash)
    then err (message_about (codes "%s escapes the workspace root") field)
    else ok tt

abbrev refuse : Bool → Error → Result (Unit {0})
refuse true e = err e
refuse false e = ok tt

unfoldable pub validate_workspace : Workspace → Result (Unit {0})
validate_workspace w = do
  validate_relative_path (codes "cluster_yaml") w.cluster_yaml true
  validate_relative_path (codes "secrets_dir") w.secrets_dir false
  refuse (is_empty w.pod) (message (codes "pod is required"))
  refuse (is_empty w.cluster_name)
      (message (codes "cluster_name is required or must be derivable from pod"))
  refuse (is_empty w.service_name)
      (message (codes "service_name is required or must default from cluster_name"))
  refuse (not (is_empty w.secret_prefix) && not (valid_cluster_id w.secret_prefix)) (
      message_about (codes "invalid secret_prefix %q (use a lowercase DNS-1123 label)")
        w.secret_prefix)
