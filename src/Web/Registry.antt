-- ===== src/Web/Registry.antt =====
-- internal/web/clusters.go: the clusters that the server routes to. The map of the targets is an
-- association list in the order of insertion; `IDs` sorts its keys.
use cnpg_portal.Result.Bind.{◌>>=◌}
use cnpg_portal.Prelude.{
  ◌++◌, ◌||◌, map, Text, codes, List, [], ◌∷◌, Bool, true, false, ◌&&◌, Option, none, some,
  if◌then◌else◌, is_empty, eq_text, ltb, ◌==◌,
}
use cnpg_portal.Result.{Result, ok, err, message, message_about}
use cnpg_portal.Tenant.{Deps}
use cnpg_portal.Workspace.{or_else}

pub record ClusterTarget : Type 0 where
  pub id : Text
  pub display_name : Text
  pub deps : Deps

unfoldable pub cluster_name : ClusterTarget → Text
cluster_name t = elim t.deps.workspace [ none ↦ [] | some ws ↦ ws.cluster_name ]

unfoldable pub target_namespace : ClusterTarget → Text
target_namespace t = elim t.deps.workspace [ none ↦ [] | some ws ↦ ws.namespace ]

pub record ClusterRegistry : Type 0 where
  pub default_id : Text
  pub targets : List (Text × ClusterTarget)

unfoldable pub find_target : Text → List (Text × ClusterTarget) → Option ClusterTarget
find_target id [] = none
find_target id ((k, t) ∷ ts) = let rest = find_target id ts in if eq_text k id then some t else rest

-- if target.DisplayName == "" { target.DisplayName = target.ID }
unfoldable pub shown : ClusterTarget → ClusterTarget
shown t = record t { display_name = or_else t.display_name t.id }

-- the loop over the targets, `seen` being the map so far
unfoldable pub index_targets :
    List (Text × ClusterTarget) → List ClusterTarget → Result (List (Text × ClusterTarget))
unfolding shown
index_targets seen [] = ok seen
index_targets seen (t ∷ ts) =
    let rest = index_targets (seen ++ (t.id, shown t) ∷ []) ts in
    if is_empty t.id
    then err (message (codes "cluster target has an empty ID"))
    else elim (find_target t.id seen) [
      | some u ↦ err (message_about (codes "duplicate cluster target %q") t.id)
      | none ↦ rest
    ]

-- the only target is the default where none is named
unfoldable pub default_target : Text → List (Text × ClusterTarget) → Text
default_target (c ∷ id) targets = c ∷ id
default_target [] ((k, t) ∷ []) = k
default_target [] targets = []

unfoldable pub finish_registry : Text → List (Text × ClusterTarget) → Result ClusterRegistry
unfolding default_target find_target
finish_registry default_id [] = err (message (codes "no cluster targets configured"))
finish_registry default_id (t ∷ ts) =
    let id = default_target default_id (t ∷ ts) in
    elim (find_target id (t ∷ ts)) [
      | none ↦ err (message_about (codes "default cluster %q is not configured") id)
      | some u ↦ ok (record { default_id = id; targets = t ∷ ts })
    ]

unfoldable pub new_cluster_registry : Text → List ClusterTarget → Result ClusterRegistry
unfolding index_targets finish_registry
new_cluster_registry default_id targets = do
  indexed ← index_targets [] targets
  finish_registry default_id indexed

-- the order of Go's strings
unfoldable pub text_less : Text → Text → Bool
text_less [] [] = false
text_less [] (d ∷ t) = true
text_less (c ∷ s) [] = false
text_less (c ∷ s) (d ∷ t) = ltb c d || (c == d && text_less s t)

unfoldable pub insert_id : Text → List Text → List Text
unfolding text_less
insert_id id [] = id ∷ []
insert_id id (k ∷ ks) =
    let rest = insert_id id ks in if text_less k id then k ∷ rest else id ∷ k ∷ ks

-- sort.Strings
unfoldable pub sort_ids : List Text → List Text
unfolding insert_id
sort_ids [] = []
sort_ids (id ∷ ids) = insert_id id (sort_ids ids)

abbrev pub key_of {ℓ} : {A : Type ℓ} → Text × A → Text
key_of (k, a) = k

unfoldable pub registry_ids : ClusterRegistry → List Text
unfolding sort_ids
registry_ids r = sort_ids (map key_of r.targets)
