-- ===== src/Cli/Clusters.antt =====
-- From the marker file to the clusters that the server routes to (cmd/cnpgctl/deps.go).
use cnpg_portal.Prelude.{
  Text, List, [], ◌∷◌, map, true, false, some, ◌≡◌, refl, sym, subst, eq_text, eq_text→eq,
  Bool-cases, inl, inr, is_empty, arith,
}
use cnpg_portal.Result.{ok}
use cnpg_portal.Result.Bind.{>>=-eq-ok}
use cnpg_portal.World.{Conn}
use cnpg_portal.Workspace.{Workspace}
use cnpg_portal.Workspace.Catalog.{Catalog, select}
use cnpg_portal.Cli.{true, targets_of, target_of, deps_of, cluster_registry, catalog_ids}
use cnpg_portal.Web.Registry.{ClusterTarget, ClusterRegistry, find_target, shown}
use cnpg_portal.Web.Targets.{new_cluster_registry-IsRouted}
use cnpg_portal.World.{Conn}

-- The target works on the workspace that the catalog has under its ID, through the Kubernetes client
-- and a connection to the workspace's pod.
abbrev pub WorksOn : Catalog → Text → ClusterTarget → Type 0
WorksOn c id t =
    (ws : Workspace) × (c' : Conn) × (select (some c) id ≡ ok ws)
    × (t.deps.has_k8s ≡ true)
    × (t.deps.workspace ≡ some ws)
    × (t.deps.pg ≡ some c')
    × (c'.namespace ≡ ws.namespace)
    × (c'.pod ≡ ws.pod)
    × (c'.container ≡ ws.container)

abbrev entries : List ClusterTarget → List (Text × ClusterTarget)
entries ts = map (λ t. (t.id, shown t)) ts

find-WorksOn :
    (c : Catalog) (ids : List Text) {ts : List ClusterTarget} (id : Text) {t : ClusterTarget}
    → targets_of c ids ≡ ok ts
    → find_target id (entries ts) ≡ some t
    → WorksOn c id t
unfolding targets_of find_target shown target_of deps_of
find-WorksOn c [] {ts} id {t} e f =
    let same : [] ≡ ts = cc e in
    absurd (cc (subst (λ us. find_target id (entries us) ≡ some t) (sym same) f))
find-WorksOn c (k ∷ ids) {ts} id {t} e f =
    let (ws, selected, rest) = >>=-eq-ok (select (some c) k) _ e in
    let (us, more, made) = >>=-eq-ok (targets_of c ids) _ rest in
    let same : target_of k ws ∷ us ≡ ts = cc made in
    let g = subst (λ vs. find_target id (entries vs) ≡ some t) (sym same) f in
    elim (Bool-cases (eq_text k id)) [
      | inl y ↦
          let here : shown (target_of k ws) ≡ t = ground arith in
          subst (WorksOn c id) here (
            ws,
            record { namespace = ws.namespace; pod = ws.pod; container = ws.container },
            subst (λ i. select (some c) i ≡ ok ws) (eq_text→eq k id y) selected,
            refl,
            refl,
            refl,
            refl,
            refl,
            refl,
          )
      | inr n ↦
          let there : find_target id (entries us) ≡ some t = ground arith in
          find-WorksOn c ids id more there
    ]

-- The server routes an ID of a cluster only to the workspace that the marker file's catalog has
-- under that ID: the target has that workspace and a Kubernetes client, and its database connection
-- goes to the workspace's namespace, pod and container. The default is one of the targets, and it is the catalog's default where that is named.
pub cluster_registry-WorksOn :
    (c : Catalog) (r : ClusterRegistry) (id : Text) (t : ClusterTarget)
    → cluster_registry c ≡ ok r
    → find_target id r.targets ≡ some t
    → WorksOn c id t
      × ((d : ClusterTarget) × (find_target r.default_id r.targets ≡ some d))
      × (is_empty c.default_cluster ≡ false → r.default_id ≡ c.default_cluster)
unfolding cluster_registry
cluster_registry-WorksOn c r id t e f =
    let (ts, made, built) = >>=-eq-ok (targets_of c (catalog_ids c)) _ e in
    let (same, routed, default, chosen) =
      new_cluster_registry-IsRouted c.default_cluster ts r built in
    (
      find-WorksOn c (catalog_ids c) id made (subst (λ o. find_target id o ≡ some t) same f),
      default,
      chosen,
    )
