-- ===== src/Web/Routes.antt =====
-- internal/web/server.go: the routes of a cluster's pages and their mounts, one for every cluster.
use cnpg_portal.Prelude.{
  Text, codes, List, [], ◌∷◌, ◌++◌, Bool, true, false, Option, none, some, map,
}
use cnpg_portal.Web.Registry.{ClusterTarget, ClusterRegistry, registry_ids, find_target}

-- the handlers of `Handlers`
pub data Action : Type 0 where
  tenants detail dump conns new_form new import_form import terminate : Action
  branch_form branch sync_form sync drop_form drop restore_form restore : Action
  rotate_form rotate backup : Action

-- `gated` is being in the group of RequireAdmin
pub record Route : Type 0 where
  pub method : Text
  pub pattern : Text
  pub gated : Bool
  pub action : Action

abbrev pub open_get : Text → Action → Route
open_get p a = record { method = codes "GET"; pattern = p; gated = false; action = a }

abbrev pub get : Text → Action → Route
get p a = record { method = codes "GET"; pattern = p; gated = true; action = a }

abbrev pub post : Text → Action → Route
post p a = record { method = codes "POST"; pattern = p; gated = true; action = a }

abbrev pub tenant_path : Text → Text
tenant_path rest = codes "/tenant/{name}" ++ rest

-- registerRoutes
unfoldable pub routes : List Route
routes =
    open_get (codes "/") tenants
    ∷ open_get (tenant_path []) detail
    ∷ get (tenant_path (codes "/dump")) dump
    ∷ get (tenant_path (codes "/conns")) conns
    ∷ get (codes "/new") new_form
    ∷ post (codes "/new") new
    ∷ get (codes "/new/import-dump") import_form
    ∷ post (codes "/new/import-dump") import
    ∷ post (tenant_path (codes "/conns/{pid}/terminate")) terminate
    ∷ get (tenant_path (codes "/branch")) branch_form
    ∷ post (tenant_path (codes "/branch")) branch
    ∷ get (tenant_path (codes "/sync")) sync_form
    ∷ post (tenant_path (codes "/sync")) sync
    ∷ get (tenant_path (codes "/drop")) drop_form
    ∷ post (tenant_path (codes "/drop")) drop
    ∷ get (tenant_path (codes "/restore")) restore_form
    ∷ post (tenant_path (codes "/restore")) restore
    ∷ get (tenant_path (codes "/rotate")) rotate_form
    ∷ post (tenant_path (codes "/rotate")) rotate
    ∷ post (codes "/backup") backup
    ∷ []

-- what stands behind a path of the whole server
pub data Endpoint : Type 0 where
  health metrics home : Endpoint
  page : ClusterTarget → Route → Endpoint

-- `none` is every method
pub record Mount : Type 0 where
  pub method : Option Text
  pub path : Text
  pub endpoint : Endpoint

abbrev pub base_path_of : Text → Text
base_path_of id = codes "/clusters/" ++ id

unfoldable pub mount : Text → ClusterTarget → Route → Mount
mount id t r = record {
  method = some r.method;
  path = base_path_of id ++ r.pattern;
  endpoint = page t r;
}

-- the mounts of one cluster
unfoldable pub mounts_of : ClusterRegistry → Text → List Mount
unfolding find_target mount
mounts_of reg id = elim (find_target id reg.targets) [
  | none ↦ []
  | some t ↦ map (mount id t) routes
]

-- the loop over `registry.IDs()`
unfoldable pub cluster_mounts : ClusterRegistry → List Text → List Mount
unfolding mounts_of
cluster_mounts reg [] = []
cluster_mounts reg (id ∷ ids) = mounts_of reg id ++ cluster_mounts reg ids

abbrev pub mount_get : Text → Endpoint → Mount
mount_get path e = record { method = some (codes "GET"); path = path; endpoint = e }

-- RouterClusters; the assets are left out
unfoldable pub mounts : ClusterRegistry → List Mount
unfolding cluster_mounts registry_ids
mounts reg =
    mount_get (codes "/healthz") health
    ∷ record { method = none; path = codes "/metrics"; endpoint = metrics }
    ∷ mount_get (codes "/") home
    ∷ mount_get (codes "/clusters") home
    ∷ cluster_mounts reg (registry_ids reg)
