-- ===== src/Tests/Commands.antt =====
-- The commands, and the clusters of a marker file.
use cnpg_portal.Prelude.{codes, [], ◌∷◌, false, some, eq_text, ◌≡◌, refl, is_empty}
use cnpg_portal.Result.{ok}
use cnpg_portal.Tests.Fixtures.{app, outside, rules, yaml}
use cnpg_portal.Workspace.Catalog.{Catalog}
use cnpg_portal.Cli.{cluster_registry, target_of}
use cnpg_portal.Tests.Fixtures.{app, site}
use cnpg_portal.Web.Registry.{find_target, ClusterTarget, shown}
use cnpg_portal.Cli.Clusters.{cluster_registry-WorksOn, WorksOn}
use cnpg_portal.Tenant.Guards.{Refuses}
use cnpg_portal.Cli.Commands.{sync_command, rotate_command, drop_command}
use cnpg_portal.Cli.Confirmed.{commands-Refuses}

-- a catalog with one cluster
abbrev catalog : Catalog
catalog = record {
  root = codes "/srv/ws";
  default_cluster = codes "main";
  clusters = (codes "main", site) ∷ [];
}

abbrev routed : ClusterTarget
routed = shown (target_of (codes "main") site)

cluster_registry-WorksOn_example :
    WorksOn catalog (codes "main") routed
    × ((d : ClusterTarget) × (find_target (codes "main") ((codes "main", routed) ∷ []) ≡ some d))
    × (is_empty catalog.default_cluster ≡ false → codes "main" ≡ catalog.default_cluster)
unfolding cluster_registry eq_text
cluster_registry-WorksOn_example =
    cluster_registry-WorksOn catalog
      (record { default_id = codes "main"; targets = (codes "main", routed) ∷ [] }) (codes "main")
      routed refl refl

commands-Refuses_example :
    Refuses (drop_command outside rules yaml (ok site) app false) []
    × Refuses (rotate_command outside rules yaml (ok site) app false) []
    × Refuses (sync_command outside rules yaml (ok site) (codes "shop_b") app false) []
commands-Refuses_example = commands-Refuses outside rules yaml (ok site) app (codes "shop_b") []
