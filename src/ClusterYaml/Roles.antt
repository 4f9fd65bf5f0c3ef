-- ===== src/ClusterYaml/Roles.antt =====
-- `AppendRole`, `RemoveRole` and `ListRoles` on a parsed manifest, and `modify` on its text.
use cnpg_portal.Prelude.{
  Text, codes, eq_text, List, [], ◌∷◌, ◌++◌, map, keep, Bool, false, not, ◌||◌, Option, none, some,
  if◌then◌else◌,
}
use cnpg_portal.Result.{Result, ok, err, wrapped, err_role_exists}
use cnpg_portal.Result.Bind.{◌>>=◌, map_err}
use cnpg_portal.ClusterYaml.{
  Node, node, nil, mapping_node, scalar_node, find_child, scalar_value, on_roles, roles_of,
  from_items,
}

pub record Role : Type 0 where
  pub name : Text
  pub comment : Text
  pub password_secret : Text

abbrev pub tagged : Text → Text → Node
tagged tag value = node scalar_node tag value [] nil

abbrev pub scalar : Text → Node
scalar value = tagged [] value

abbrev pub mapping : List Node → Node
mapping content = node mapping_node [] [] [] (from_items content)

unfoldable pub role_node : Role → Node
unfolding from_items
role_node role = mapping (
    scalar (codes "name")
    ∷ scalar role.name
    ∷ scalar (codes "comment")
    ∷ scalar role.comment
    ∷ scalar (codes "ensure")
    ∷ scalar (codes "present")
    ∷ scalar (codes "login")
    ∷ tagged (codes "!!bool") (codes "true")
    ∷ scalar (codes "createdb")
    ∷ tagged (codes "!!bool") (codes "false")
    ∷ scalar (codes "inherit")
    ∷ tagged (codes "!!bool") (codes "true")
    ∷ scalar (codes "connectionLimit")
    ∷ tagged (codes "!!int") (codes "-1")
    ∷ scalar (codes "passwordSecret")
    ∷ mapping (scalar (codes "name") ∷ scalar role.password_secret ∷ [])
    ∷ [])

unfoldable pub node_name : Node → Text
unfolding find_child scalar_value
node_name n = scalar_value (find_child (some n) (codes "name"))

unfoldable pub has_role : Text → List Node → Bool
unfolding node_name
has_role name [] = false
has_role name (n ∷ ns) = eq_text (node_name n) name || has_role name ns

unfoldable pub append_node : Role → List Node → Result (List Node)
unfolding has_role
append_node role roles =
    if has_role role.name roles then err err_role_exists else ok (roles ++ role_node role ∷ [])

unfoldable pub other_name : Text → Node → Bool
unfolding node_name
other_name name n = not (eq_text (node_name n) name)

unfoldable pub remove_nodes : Text → List Node → Result (List Node)
remove_nodes name roles = ok (keep (other_name name) roles)

unfoldable pub node_role : Node → Role
unfolding node_name
node_role n = record {
  name = node_name n;
  comment = scalar_value (find_child (some n) (codes "comment"));
  password_secret =
      scalar_value (find_child (find_child (some n) (codes "passwordSecret")) (codes "name"));
}

unfoldable pub list_roles : Node → Option (List Role)
unfolding roles_of node_role
list_roles doc = elim (roles_of doc) [ none ↦ none | some roles ↦ some (map node_role roles) ]

-- The parser and the encoder of `yaml.v3`.
pub record Yaml : Type 0 where
  pub parse : Text → Result Node
  pub encode : Node → Result Text

-- `modify` between the reading and the writing of the file
unfoldable pub modify_text : Yaml → (List Node → Result (List Node)) → Text → Result Text
unfolding on_roles
modify_text yaml fn text = do
  doc ← map_err (wrapped (codes "parse")) (yaml.parse text)
  doc' ← on_roles fn doc
  map_err (wrapped (codes "encode")) (yaml.encode doc')
