-- ===== src/Cli.antt =====
-- cmd/cnpgctl: deps.go, what every command works on, and serve.go, from the flags to the server.
-- The Kubernetes client is a parameter: whether one can be made from a kubeconfig.
use cnpg_portal.Prelude.{
  Text, codes, List, [], ◌∷◌, map, Bool, true, not, ◌&&◌, some, is_empty, if◌then◌else◌,
}
use cnpg_portal.Result.{Result, ok, err, message, wrapped}
use cnpg_portal.Result.Bind.{◌>>=◌, ◌>>◌}
use cnpg_portal.Workspace.{Workspace, or_else}
use cnpg_portal.Workspace.Catalog.{Catalog, Disk, select, find_catalog, find_cluster}
use cnpg_portal.Tenant.{Deps}
use cnpg_portal.Web.Registry.{
  ClusterTarget, ClusterRegistry, new_cluster_registry, sort_ids, key_of,
}
pub mod Clusters
pub mod Serve
pub mod Commands
pub mod Confirmed

-- `catalog.IDs()`
unfoldable pub catalog_ids : Catalog → List Text
unfolding sort_ids
catalog_ids c = sort_ids (map key_of c.clusters)

unfoldable pub deps_of : Workspace → Deps
deps_of ws = record {
  has_k8s = true;
  pg = some (record { namespace = ws.namespace; pod = ws.pod; container = ws.container });
  workspace = some ws;
}

unfoldable pub target_of : Text → Workspace → ClusterTarget
unfolding deps_of
target_of id ws = record { id = id; display_name = ws.display_name; deps = deps_of ws }

-- the loop over `catalog.IDs()`
unfoldable pub targets_of : Catalog → List Text → Result (List ClusterTarget)
unfolding target_of select
targets_of c [] = ok []
targets_of c (id ∷ ids) = do
  ws ← select (some c) id
  targets ← targets_of c ids
  ok (target_of id ws ∷ targets)

-- buildClusterRegistry from the catalog on
unfoldable pub cluster_registry : Catalog → Result ClusterRegistry
unfolding catalog_ids targets_of new_cluster_registry
cluster_registry c = do
  targets ← targets_of c (catalog_ids c)
  new_cluster_registry c.default_cluster targets

module _ (disk : Disk) (new_client : Text → Result (Unit {0})) where
  unfoldable pub build_deps : Text → Text → List Text → Text → Text → Text → Result Deps
  unfolding find_cluster deps_of
  build_deps flag from_env folders id id_from_env kubeconfig = do
    ws ← find_cluster disk flag from_env folders id id_from_env
    kube ← new_client kubeconfig
    ok (deps_of ws)

  unfoldable pub build_cluster_registry : Text → Text → List Text → Text → Result ClusterRegistry
  unfolding find_catalog cluster_registry
  build_cluster_registry flag from_env folders kubeconfig = do
    catalog ← find_catalog disk flag from_env folders
    kube ← new_client kubeconfig
    cluster_registry catalog
