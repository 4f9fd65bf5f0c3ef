-- ===== src/Web/Context.antt =====
-- internal/web/server.go and internal/web/templates/context.go: what every page of a cluster knows,
-- and the paths in its links.
use cnpg_portal.Prelude.{
  Text, codes, List, [], ◌∷◌, ◌++◌, Bool, ◌||◌, Option, none, some, if◌then◌else◌, eq_text,
  is_empty,
}
use cnpg_portal.Strings.{trim_last, has_prefix}
use cnpg_portal.Web.Admins.{AdminList, is_admin}
use cnpg_portal.Web.Registry.{
  ClusterTarget, ClusterRegistry, cluster_name, target_namespace, find_target, registry_ids,
}
use cnpg_portal.Web.Routes.{base_path_of}
use cnpg_portal.Web.Pages.{Context, login_of}

pub record ClusterOption : Type 0 where
  pub id : Text
  pub display_name : Text
  pub cluster_name : Text
  pub namespace : Text
  pub url : Text
  pub active : Bool

pub record PageContext : Type 0 where
  pub base_path : Text
  pub cluster_id : Text
  pub cluster_name : Text
  pub display_name : Text
  pub namespace : Text
  pub login : Text
  pub is_admin : Bool
  pub clusters : List ClusterOption

unfoldable pub option_of : ClusterTarget → ClusterTarget → ClusterOption
option_of target item = record {
  id = item.id;
  display_name = item.display_name;
  cluster_name = cluster_name item;
  namespace = target_namespace item;
  url = base_path_of item.id ++ codes "/";
  active = eq_text item.id target.id;
}

-- the loop over `registry.IDs()`
unfoldable pub cluster_options : ClusterRegistry → ClusterTarget → List Text → List ClusterOption
unfolding option_of
cluster_options reg target [] = []
cluster_options reg target (id ∷ ids) = elim (find_target id reg.targets) [
  | none ↦ cluster_options reg target ids
  | some item ↦ option_of target item ∷ cluster_options reg target ids
]

unfoldable pub page_context :
    ClusterRegistry → ClusterTarget → Option AdminList → Context → PageContext
unfolding cluster_options registry_ids
page_context reg target admins x = record {
  base_path = base_path_of target.id;
  cluster_id = target.id;
  cluster_name = cluster_name target;
  display_name = target.display_name;
  namespace = target_namespace target;
  login = login_of x;
  is_admin = is_admin admins (login_of x);
  clusters = cluster_options reg target (registry_ids reg);
}

-- CurrentPage: the path of a page without one is "/"
abbrev pub current_base : Text → Text
current_base [] = codes "/"
current_base (c ∷ s) = c ∷ s

-- templates.Route
unfoldable pub template_route : Text → Text → Text
template_route page_base path =
    let base = trim_last b'/' (current_base page_base) in
    if is_empty path || eq_text path (codes "/")
    then (if is_empty base then codes "/" else base ++ codes "/")
    else (if has_prefix path (codes "/") then base ++ path else base ++ (codes "/" ++ path))
