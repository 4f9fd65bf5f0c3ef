-- ===== src/ClusterYaml.antt =====
-- internal/clusteryaml/patch.go: the roles sequence of the CNPG Cluster manifest. A node of
-- `yaml.v3` is its kind, its tag, its value, its comments and style as one text that no code here
-- reads, and its content. `navigateRoles` returns a pointer into the tree; here the change is
-- carried to the same place by `on_child`.
pub mod Roles
pub mod Laws
pub mod Errors
pub mod RoleLaws
pub mod Files
use cnpg_portal.Prelude.{
  Text, codes, eq_text, List, [], ◌∷◌, Bool, true, false, Option, none, some, if◌then◌else◌,
}
use cnpg_portal.Result.{Error, Result, ok, err, message}
use cnpg_portal.Result.Bind.{◌>>=◌}

pub data Kind : Type 0 where
  document_node sequence_node mapping_node scalar_node alias_node : Kind

mutual
  pub data Node : Type 0 where
    node : Kind → Text → Text → Text → Nodes → Node

  pub data Nodes : Type 0 where
    nil : Nodes
    cons : Node → Nodes → Nodes

unfoldable pub items : Nodes → List Node
items nil = []
items (cons n ns) = n ∷ items ns

unfoldable pub from_items : List Node → Nodes
from_items [] = nil
from_items (n ∷ ns) = cons n (from_items ns)

abbrev pub value_of : Node → Text
value_of (node kind tag value trivia content) = value

-- the value that follows the first key with this text; an odd last node is no pair
unfoldable pub find_pair : Text → Nodes → Option Node
find_pair key nil = none
find_pair key (cons k nil) = none
find_pair key (cons k (cons v rest)) =
    if eq_text (value_of k) key then some v else find_pair key rest

unfoldable pub find_child : Option Node → Text → Option Node
unfolding find_pair
find_child (some (node mapping_node tag value trivia content)) key = find_pair key content
find_child _ key = none

unfoldable pub scalar_value : Option Node → Text
scalar_value (some (node scalar_node tag value trivia content)) = value
scalar_value _ = []

-- the pair of the first such key with its value changed
unfoldable pub on_pair : Text → (Node → Result Node) → Error → Nodes → Result Nodes
on_pair key f missing nil = err missing
on_pair key f missing (cons k nil) = err missing
on_pair key f missing (cons k (cons v rest)) =
    let here = (do v' ← f v; ok (cons k (cons v' rest))) in
    let further = (do rest' ← on_pair key f missing rest; ok (cons k (cons v rest'))) in
    if eq_text (value_of k) key then here else further

unfoldable pub on_child : Text → (Node → Result Node) → Error → Node → Result Node
unfolding on_pair
on_child key f missing (node mapping_node tag value trivia content) = do
  content' ← on_pair key f missing content
  ok (node mapping_node tag value trivia content')
on_child key f missing _ = err missing

abbrev pub bad_roles : Error
bad_roles = message (codes "missing or invalid spec.managed.roles sequence")

-- the sequence's content changed by `fn`
unfoldable pub on_sequence : (List Node → Result (List Node)) → Node → Result Node
unfolding items from_items
on_sequence fn (node sequence_node tag value trivia content) = do
  roles ← fn (items content)
  ok (node sequence_node tag value trivia (from_items roles))
on_sequence fn _ = err bad_roles

unfoldable pub on_root : (List Node → Result (List Node)) → Node → Result Node
unfolding on_child on_sequence
on_root fn root =
    on_child (codes "spec")
      (on_child (codes "managed") (on_child (codes "roles") (on_sequence fn) bad_roles)
        (message (codes "missing spec.managed (no declarative role management configured)")))
      (message (codes "missing spec")) root

-- `navigateRoles` and the change of what it points to
unfoldable pub on_roles : (List Node → Result (List Node)) → Node → Result Node
unfolding on_root
on_roles fn (node document_node tag value trivia (cons root rest)) = do
  root' ← on_root fn root
  ok (node document_node tag value trivia (cons root' rest))
on_roles fn _ = err (message (codes "not a yaml document"))

-- what stands under a path of keys
unfoldable pub at_path : Option Node → List Text → Option Node
unfolding find_child
at_path n [] = n
at_path n (key ∷ keys) = at_path (find_child n key) keys

unfoldable pub at_root : Node → List Text → Option Node
unfolding at_path
at_root (node document_node tag value trivia (cons root rest)) keys = at_path (some root) keys
at_root _ keys = none

abbrev pub content_of : Option Node → Option (List Node)
content_of (some (node sequence_node tag value trivia content)) = some (items content)
content_of _ = none

-- the roles, read only: `none` where `navigateRoles` reports an error
unfoldable pub roles_of : Node → Option (List Node)
unfolding at_root items
roles_of doc = content_of (at_root doc (codes "spec" ∷ codes "managed" ∷ codes "roles" ∷ []))
