-- ===== src/ClusterYaml/RoleLaws.antt =====
-- What `AppendRole` and `RemoveRole` do to the list of roles.
use cnpg_portal.Prelude.{
  map-append, sym, subst, ◌∙◌, Text, eq_text, eq_text_refl, List, [], ◌∷◌, ◌++◌, map, keep, true,
  false, ◌≡◌, refl, arith, some, Bool-cases, inl, inr, ap,
}
use cnpg_portal.Result.{ok, err, err_role_exists}
use cnpg_portal.ClusterYaml.{
  Node, from_items, find_pair, find_child, scalar_value, on_roles, roles_of,
}
use cnpg_portal.ClusterYaml.Roles.{
  Role, role_node, node_name, has_role, append_node, other_name, remove_nodes, node_role,
  list_roles,
}
use cnpg_portal.ClusterYaml.Errors.{on_roles-err}
use cnpg_portal.ClusterYaml.Laws.{ok_injective, IsRolesEdit, on_roles-IsRolesEdit}

node_name-role_node : (role : Role) → node_name (role_node role) ≡ role.name
unfolding node_name role_node from_items find_child find_pair scalar_value eq_text
node_name-role_node role = refl

-- A role that was written reads back with its name, its comment and the name of its Secret.
pub node_role-role_node : (role : Role) → node_role (role_node role) ≡ role
unfolding node_role node_name role_node from_items find_child find_pair scalar_value eq_text
node_role-role_node role = refl

has_role-append :
    (name : Text) (ns : List Node) (n : Node)
    → node_name n ≡ name
    → has_role name (ns ++ n ∷ []) ≡ true
unfolding has_role
has_role-append name [] n h = rw h (rw (eq_text_refl name))
has_role-append name (m ∷ ns) n h = ground (arith, has_role-append name ns n h)

has_role-keep : (name : Text) (ns : List Node) → has_role name (keep (other_name name) ns) ≡ false
unfolding has_role other_name
has_role-keep name [] = refl
has_role-keep name (n ∷ ns) = ground (arith, has_role-keep name ns)

keep-none :
    (name : Text) (ns : List Node) → has_role name ns ≡ false → keep (other_name name) ns ≡ ns
unfolding has_role other_name
keep-none name [] h = refl
keep-none name (n ∷ ns) h = ground (arith, keep-none name ns)

keep-append :
    (name : Text) (ns : List Node) (n : Node)
    → node_name n ≡ name
    → keep (other_name name) (ns ++ n ∷ []) ≡ keep (other_name name) ns
unfolding other_name
keep-append name [] n h = rw h (rw (eq_text_refl name))
keep-append name (m ∷ ns) n h = ground (arith, keep-append name ns n h)

-- Removing the role that was just appended gives the old list back.
pub remove-append :
    (role : Role) (ns ns' : List Node)
    → append_node role ns ≡ ok ns'
    → remove_nodes role.name ns' ≡ ok ns
unfolding append_node remove_nodes
remove-append role ns ns' h = elim (Bool-cases (has_role role.name ns)) [
  | inl e ↦ let bad : err err_role_exists ≡ ok ns' = rw e at h in absurd (cc bad)
  | inr e ↦
      let made : ok (ns ++ role_node role ∷ []) ≡ ok ns' = rw e at h in
      subst (λ ms. remove_nodes role.name ms ≡ ok ns) (ok_injective made)
        (ap ok (
          keep-append role.name ns (role_node role) (node_name-role_node role)
          ∙ keep-none role.name ns e))
]

append_node-roles :
    (role : Role) (ns ns' : List Node)
    → append_node role ns ≡ ok ns'
    → map node_role ns' ≡ map node_role ns ++ role ∷ []
unfolding append_node
append_node-roles role ns ns' h = elim (Bool-cases (has_role role.name ns)) [
  | inl e ↦ let bad : err err_role_exists ≡ ok ns' = rw e at h in absurd (cc bad)
  | inr e ↦
      let made : ok (ns ++ role_node role ∷ []) ≡ ok ns' = rw e at h in
      subst (λ ms. map node_role ms ≡ map node_role ns ++ role ∷ []) (ok_injective made)
        (map-append node_role ns (role_node role ∷ [])
          ∙ ap (λ (r : Role). map node_role ns ++ r ∷ []) (node_role-role_node role))
]

append_node-again :
    (role : Role) (ns ns' : List Node)
    → append_node role ns ≡ ok ns'
    → append_node role ns' ≡ err err_role_exists
unfolding append_node
append_node-again role ns ns' h = elim (Bool-cases (has_role role.name ns)) [
  | inl e ↦ let bad : err err_role_exists ≡ ok ns' = rw e at h in absurd (cc bad)
  | inr e ↦
      let made : ok (ns ++ role_node role ∷ []) ≡ ok ns' = rw e at h in
      subst (λ ms. append_node role ms ≡ err err_role_exists) (ok_injective made)
        (unfold append_node in
          rw (has_role-append role.name ns (role_node role) (node_name-role_node role)))
]

list_roles-eq :
    (doc : Node) (ns : List Node)
    → roles_of doc ≡ some ns
    → list_roles doc ≡ some (map node_role ns)
unfolding list_roles
list_roles-eq doc ns h = rw (h, list_roles)

-- The manifests before and after `AppendRole`.
pub record IsAppended (role : Role) (doc doc' : Node) : Type 0 where
  pub before : List Node
  pub after : List Node
  pub had : roles_of doc ≡ some before
  pub has : roles_of doc' ≡ some after
  pub listed : list_roles doc' ≡ some (map node_role before ++ role ∷ [])
  pub again : on_roles (append_node role) doc' ≡ err err_role_exists
  pub undone : remove_nodes role.name after ≡ ok before
  pub rest : IsRolesEdit (append_node role) doc doc'

-- When `AppendRole` changes a manifest, `ListRoles` of the result gives the old roles and then the
-- new one, a second `AppendRole` of it is refused as already there, and `RemoveRole` of its name
-- brings the old list of roles back. What stands under other keys of the root, of spec and of
-- managed is as before.
pub append_role-IsAppended :
    (role : Role) (doc doc' : Node)
    → on_roles (append_node role) doc ≡ ok doc'
    → IsAppended role doc doc'
append_role-IsAppended role doc doc' h =
    let edit = on_roles-IsRolesEdit (append_node role) doc doc' h in
    record {
      before = edit.roles;
      after = edit.roles';
      had = edit.was;
      has = edit.is;
      listed =
          list_roles-eq doc' edit.roles' edit.is
          ∙ ap some (append_node-roles role edit.roles edit.roles' edit.changed);
      again =
          on_roles-err (append_node role) doc' edit.roles' err_role_exists edit.is
            (append_node-again role edit.roles edit.roles' edit.changed);
      undone = remove-append role edit.roles edit.roles' edit.changed;
      rest = edit;
    }

-- The manifests before and after `RemoveRole`.
pub record IsRemoved (name : Text) (doc doc' : Node) : Type 0 where
  pub before : List Node
  pub had : roles_of doc ≡ some before
  pub has : roles_of doc' ≡ some (keep (other_name name) before)
  pub gone : has_role name (keep (other_name name) before) ≡ false
  pub again : remove_nodes name (keep (other_name name) before) ≡ ok (keep (other_name name) before)
  pub rest : IsRolesEdit (remove_nodes name) doc doc'

-- When `RemoveRole` changes a manifest, the name is no longer there, the other roles stay in their
-- order, and removing the name again gives the same roles. What stands under other keys of the
-- root, of spec and of managed is as before.
pub remove_role-IsRemoved :
    (name : Text) (doc doc' : Node)
    → on_roles (remove_nodes name) doc ≡ ok doc'
    → IsRemoved name doc doc'
unfolding remove_nodes
remove_role-IsRemoved name doc doc' h =
    let edit = on_roles-IsRolesEdit (remove_nodes name) doc doc' h in
    record {
      before = edit.roles;
      had = edit.was;
      has = subst (λ ns. roles_of doc' ≡ some ns) (sym (ok_injective edit.changed)) edit.is;
      gone = has_role-keep name edit.roles;
      again =
          ap ok
            (keep-none name (keep (other_name name) edit.roles) (has_role-keep name edit.roles));
      rest = edit;
    }
