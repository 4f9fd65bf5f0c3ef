-- ===== src/Workspace/Catalog.antt =====
-- The catalog: `loadCatalog`, `Select` and the discovery of `FindCatalog`.
use cnpg_portal.Prelude.{
  Text, codes, eq_text, List, [], ◌∷◌, Bool, Option, none, some, if◌then◌else◌, is_empty,
}
use cnpg_portal.Paths.{join_path}
use cnpg_portal.Result.{
  Result, ok, err, message, message_about, wrapped, err_not_found, err_cluster_not_found,
}
use cnpg_portal.Result.Bind.{◌>>=◌, ◌>>◌, map_err}
use cnpg_portal.Workspace.{Workspace, apply_defaults, validate_workspace, valid_cluster_id, or_else}

-- `m[key]`: the entry that was stored last
unfoldable pub lookup {ℓ} : {V : Type ℓ} → Text → List (Text × V) → Option V
lookup key [] = none
lookup key ((k, v) ∷ m) = if eq_text k key then some v else lookup key m

pub record Catalog : Type 0 where
  pub root : Text
  pub default_cluster : Text
  pub clusters : List (Text × Workspace)

-- what the YAML parser makes of the marker; a target without a body is `none`
pub record MarkerFile : Type 0 where
  pub workspace : Workspace
  pub default_cluster : Text
  pub clusters : List (Text × Option Workspace)

abbrev pub default_cluster_id : Text
default_cluster_id = codes "default"

-- the target of a marker without `clusters`
unfoldable pub flat_target : Text → Workspace → Workspace
flat_target abs w =
    apply_defaults
      (record w { root = abs; id = default_cluster_id; display_name = codes "Default cluster" })

-- default_cluster, which may be left out if there is one target
unfoldable pub default_of : Text → List (Text × Option Workspace) → Text
default_of [] ((id, config) ∷ []) = id
default_of [] _ = []
default_of (c ∷ s) _ = c ∷ s

-- the body of the loop over the targets
unfoldable pub load_target : Text → Text → Option Workspace → Result Workspace
load_target abs id config =
    if valid_cluster_id id
    then elim config [
      | none ↦ err (message_about (codes "cluster %q has no configuration") id)
      | some c ↦
          let w =
            apply_defaults
              (record c { root = abs; id = id; display_name = or_else c.display_name id }) in
          (map_err (wrapped id) (validate_workspace w) >> ok w)
    ]
    else err (message_about (codes "invalid cluster ID %q (use lowercase DNS-1123 labels)") id)

unfoldable pub load_targets :
    Text → List (Text × Option Workspace) → Result (List (Text × Workspace))
unfolding load_target
load_targets abs [] = ok []
load_targets abs ((id, config) ∷ more) = do
  w ← load_target abs id config
  rest ← load_targets abs more
  ok ((id, w) ∷ rest)

-- the default must be one of the targets
unfoldable pub check_default :
    Text → Text → List (Text × Workspace) → Option Workspace → Result Catalog
check_default abs chosen targets none =
    err (message_about (codes "default_cluster %q is not declared") chosen)
check_default abs chosen targets (some w) =
    ok (record { root = abs; default_cluster = chosen; clusters = targets })

unfoldable pub load_clusters : Text → Text → List (Text × Option Workspace) → Result Catalog
unfolding load_targets lookup check_default
load_clusters abs chosen clusters =
    if is_empty chosen
    then err (message (codes "default_cluster is required when multiple clusters are configured"))
    else do
      targets ← load_targets abs clusters
      check_default abs chosen targets (lookup chosen targets)

unfoldable pub resolve_clusters :
    Text → MarkerFile → List (Text × Option Workspace) → Result Catalog
unfolding flat_target default_of load_clusters
resolve_clusters abs marker [] = ok (record {
  root = abs;
  default_cluster = default_cluster_id;
  clusters = (default_cluster_id, flat_target abs marker.workspace) ∷ [];
})
resolve_clusters abs marker (target ∷ more) =
    load_clusters abs (default_of marker.default_cluster (target ∷ more)) (target ∷ more)

-- `loadCatalog` from the parsed marker on
unfoldable pub resolve_marker : Text → MarkerFile → Result Catalog
unfolding resolve_clusters
resolve_marker abs marker = resolve_clusters abs marker marker.clusters

abbrev pub found_target : Text → Option Workspace → Result Workspace
found_target id none = err (wrapped id err_cluster_not_found)
found_target id (some w) = ok w

unfoldable pub select : Option Catalog → Text → Result Workspace
unfolding lookup
select none id = err err_cluster_not_found
select (some c) id =
    let wanted = or_else id c.default_cluster in found_target wanted (lookup wanted c.clusters)

-- The file system, the YAML parser and the environment, as the discovery sees them. `abs` is
-- `filepath.Abs`, which reads the working directory.
pub record Disk : Type 0 where
  pub abs : Text → Result Text
  pub read : Text → Result Text
  pub exists : Text → Bool
  pub parse : Text → Result MarkerFile

abbrev pub marker_name : Text
marker_name = codes ".cnpg-portal-workspace"

-- an empty file is the marker with every key left out
abbrev pub blank : Workspace
blank = record {
  root = [];
  id = [];
  display_name = [];
  cluster_yaml = [];
  secrets_dir = [];
  namespace = [];
  pod = [];
  container = [];
  cluster_name = [];
  service_name = [];
  secret_prefix = [];
}

abbrev pub blank_marker : MarkerFile
blank_marker = record { workspace = blank; default_cluster = []; clusters = [] }

module _ (disk : Disk) where
  unfoldable pub read_marker : Text → Result MarkerFile
  read_marker text = if is_empty text then ok blank_marker else disk.parse text

  unfoldable pub load_catalog : Text → Result Catalog
  unfolding read_marker resolve_marker
  load_catalog root = do
    abs ← disk.abs root
    text ← map_err (wrapped (codes "read")) (disk.read (join_path (abs ∷ marker_name ∷ [])))
    marker ← map_err (wrapped (codes "parse")) (read_marker text)
    map_err (wrapped (codes "parse")) (resolve_marker abs marker)

  -- the walk from the working directory up; the folders are the directory and its parents
  unfoldable pub walk_up : List Text → Result Catalog
  unfolding load_catalog
  walk_up [] = err err_not_found
  walk_up (dir ∷ parents) =
      let here = load_catalog dir in
      let above = walk_up parents in
      if disk.exists (join_path (dir ∷ marker_name ∷ [])) then here else above

  -- the flag, then the environment's value, then the walk
  unfoldable pub find_catalog : Text → Text → List Text → Result Catalog
  unfolding walk_up
  find_catalog flag from_env folders =
      let named = or_else flag from_env in
      if is_empty named then walk_up folders else load_catalog named

  unfoldable pub find_cluster : Text → Text → List Text → Text → Text → Result Workspace
  unfolding find_catalog select
  find_cluster flag from_env folders id id_from_env = do
    catalog ← find_catalog flag from_env folders
    select (some catalog) (or_else id id_from_env)

  unfoldable pub find : Text → Text → List Text → Result Workspace
  unfolding find_catalog select
  find flag from_env folders = do
    catalog ← find_catalog flag from_env folders
    select (some catalog) []
