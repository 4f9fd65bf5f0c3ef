-- ===== src/ClusterYaml/Files.antt =====
-- `AppendRole`, `RemoveRole` and `modify` of internal/clusteryaml/patch.go: the file is read,
-- changed as a text and written back.
use cnpg_portal.Prelude.{Text, codes, List, not, ◌||◌, is_empty}
use cnpg_portal.Result.{Result, message}
use cnpg_portal.World.{write_file, ask_done, read_file, ask_text, World, Exec}
use cnpg_portal.World.Chain.{require, ◌>>◌, lift, ◌>>=◌}
use cnpg_portal.ClusterYaml.{Node}
use cnpg_portal.ClusterYaml.Roles.{remove_nodes, append_node, modify_text, Role, Yaml}

module _ (w : World) (yaml : Yaml) where
  unfoldable pub modify : Text → (List Node → Result (List Node)) → Exec (Unit {0})
  modify path fn = do
    text ← ask_text w (read_file path)
    text' ← lift (modify_text yaml fn text)
    ask_done w (write_file path text')

  unfoldable pub append_role : Text → Role → Exec (Unit {0})
  append_role path role = do
    require (not (is_empty role.name || is_empty role.password_secret))
        (message (codes "role.Name and role.PasswordSecret are required"))
    modify path (append_node role)

  unfoldable pub remove_role : Text → Text → Exec (Unit {0})
  remove_role path name = do
    require (not (is_empty name)) (message (codes "name is required"))
    modify path (remove_nodes name)
