-- ===== src/Tests/Targets.antt =====
-- The workspace's targets, its marker file and its manifest.
use cnpg_portal.Prelude.{eq_text, codes, refl, some, [], ◌∷◌}
use cnpg_portal.Workspace.{
  valid_cluster_id, validate_relative_path, Workspace, validate_workspace, secret_path,
  cluster_yaml_path, apply_defaults,
}
use cnpg_portal.Workspace.Catalog.{load_target, MarkerFile, Catalog, resolve_marker, select}
use cnpg_portal.Workspace.Selection.{IsCatalog, resolve_marker-IsCatalog}
use cnpg_portal.Workspace.Confinement.{validate_workspace-IsInside}
use cnpg_portal.ClusterYaml.RoleLaws.{
  IsAppended, IsRemoved, append_role-IsAppended, remove_role-IsRemoved,
}
use cnpg_portal.ClusterYaml.Roles.{other_name, append_node, remove_nodes, role_node}
use cnpg_portal.Tests.Fixtures.{site, app, role, roles_document}
use cnpg_portal.ClusterYaml.{on_roles}
use cnpg_portal.Names.{dns1123_basename}
use cnpg_portal.Paths.{is_abs, clean}
use cnpg_portal.Names.Labels.{dns1123_basename-IsLabelText, IsLabelText}
use cnpg_portal.Paths.Joining.{IsInside}
use cnpg_portal.Strings.{to_lower, trim_space, replace_all, trim, last?, split, join}
use cnpg_portal.Strings.Dashes.{collapse}

validate_workspace-IsInside_example :
    IsInside site.root (cluster_yaml_path site) × IsInside site.root (secret_path site app)
unfolding validate_workspace validate_relative_path clean is_abs valid_cluster_id eq_text join split
validate_workspace-IsInside_example = validate_workspace-IsInside site app refl refl

append_role-IsAppended_example :
    IsAppended role (roles_document []) (roles_document (role_node role ∷ []))
unfolding on_roles append_node eq_text
append_role-IsAppended_example =
    append_role-IsAppended role (roles_document []) (roles_document (role_node role ∷ [])) refl

remove_role-IsRemoved_example :
    IsRemoved role.name (roles_document (role_node role ∷ [])) (roles_document [])
unfolding on_roles remove_nodes role_node eq_text other_name
remove_role-IsRemoved_example =
    remove_role-IsRemoved role.name (roles_document (role_node role ∷ [])) (roles_document []) refl

abbrev marker : MarkerFile
marker = record {
  workspace = site;
  default_cluster = codes "main";
  clusters = (codes "main", some site) ∷ [];
}

abbrev catalog : Catalog
catalog = record {
  root = codes "/srv/ws";
  default_cluster = codes "main";
  clusters = (codes "main", site) ∷ [];
}

resolve_marker-IsCatalog_example : IsCatalog (codes "/srv/ws") catalog
unfolding resolve_marker select load_target is_abs valid_cluster_id last? validate_workspace
    validate_relative_path apply_defaults eq_text clean join split
resolve_marker-IsCatalog_example =
    resolve_marker-IsCatalog (codes "/srv/ws") marker catalog (λ e. absurd (cc e)) refl

abbrev prefixed_site : Workspace
prefixed_site = record site { secret_prefix = codes "dev" }

dev-IsLabelText : IsLabelText (codes "dev")
unfolding dns1123_basename trim collapse replace_all trim_space to_lower
dev-IsLabelText = (dns1123_basename-IsLabelText (codes "dev")).0
