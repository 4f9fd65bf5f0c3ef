-- ===== src/Workspace/Selection.antt =====
-- What a loaded catalog holds, and what `Select` finds in it.
use cnpg_portal.Prelude.{
  refl, inl, inr, Option-cases, ℕ, ap, codes, eq_text_iff, eq_text, ◌≢◌, Bool-cases, Text, List, [],
  ◌∷◌, true, ◌≡◌, arith, Option, none, some, subst,
}
use cnpg_portal.Result.{err, message_about, ok}
use cnpg_portal.Paths.Joining.{IsInside}
use cnpg_portal.Paths.{is_abs}
use cnpg_portal.Workspace.Confinement.{validate_workspace-IsInside}
use cnpg_portal.Result.Bind.{>>=-eq-ok}
use cnpg_portal.Workspace.{
  secret_path, or_else, cluster_yaml_path, Workspace, apply_defaults, validate_workspace,
  valid_cluster_id,
}
use cnpg_portal.Workspace.Catalog.{
  select, check_default, resolve_clusters, flat_target, found_target, MarkerFile, load_clusters,
  resolve_marker, lookup, Catalog, load_target, load_targets,
}

-- A target of a catalog of several clusters, under its ID.
pub record IsResolved (abs id : Text) (w : Workspace) : Type 0 where
  pub valid_id : valid_cluster_id id ≡ true
  pub has_id : w.id ≡ id
  pub has_root : w.root ≡ abs
  pub validated : validate_workspace w ≡ ok tt

load_target-IsResolved :
    (abs id : Text) (config : Option Workspace) (w : Workspace)
    → load_target abs id config ≡ ok w
    → IsResolved abs id w
unfolding load_target apply_defaults
load_target-IsResolved abs id none w h = ground arith
load_target-IsResolved abs id (some c) w h = record {
  valid_id = ground arith;
  has_id = ground arith;
  has_root = ground arith;
  validated = ground arith;
}

ok_injective {ℓ} : {A : Type ℓ} {a b : A} → ok a ≡ ok b → a ≡ b
ok_injective h = cc

-- Every target of the list is resolved under its key.
abbrev pub AllResolved : Text → List (Text × Workspace) → Type 0
AllResolved abs [] = Unit
AllResolved abs ((id, w) ∷ targets) = IsResolved abs id w × AllResolved abs targets

load_targets-AllResolved :
    (abs : Text) (clusters : List (Text × Option Workspace)) (targets : List (Text × Workspace))
    → load_targets abs clusters ≡ ok targets
    → AllResolved abs targets
unfolding load_targets
load_targets-AllResolved abs [] [] h = tt
load_targets-AllResolved abs [] (t ∷ targets) h = ground arith
load_targets-AllResolved abs ((id, config) ∷ more) targets h =
    let (w, loaded, h') = >>=-eq-ok (load_target abs id config) _ h in
    let (rest, e, same) = >>=-eq-ok (load_targets abs more) _ h' in
    subst (AllResolved abs) (ok_injective same)
      (load_target-IsResolved abs id config w loaded, load_targets-AllResolved abs more rest e)

lookup-AllResolved :
    (abs id : Text) (targets : List (Text × Workspace)) (w : Workspace)
    → AllResolved abs targets
    → lookup id targets ≡ some w
    → IsResolved abs id w
unfolding lookup
lookup-AllResolved abs id [] w h e = ground arith
lookup-AllResolved abs id ((k, v) ∷ targets) w (r, h) e = elim (Bool-cases (eq_text k id)) [
  | inl same ↦
      subst (IsResolved abs id) (ground arith)
        (subst (λ key. IsResolved abs key v) ((eq_text_iff k id).0 same) r)
  | inr other ↦ lookup-AllResolved abs id targets w h (ground arith)
]

-- A catalog that was loaded from a marker with `clusters`.
pub record IsCatalog (abs : Text) (c : Catalog) : Type 0 where
  pub has_root : c.root ≡ abs
  pub resolved : AllResolved abs c.clusters
  pub has_default : (w : Workspace) × (lookup c.default_cluster c.clusters ≡ some w)
  pub names_default : c.default_cluster ≢ []

check_default-IsCatalog :
    (abs : Text) (d : ℕ) (ds : Text) (targets : List (Text × Workspace)) (c : Catalog)
    → AllResolved abs targets
    → check_default abs (d ∷ ds) targets (lookup (d ∷ ds) targets) ≡ ok c
    → IsCatalog abs c
unfolding check_default
check_default-IsCatalog abs d ds targets c r h = elim (Option-cases (lookup (d ∷ ds) targets)) [
  | inl missing ↦
      let bad : err (message_about (codes "default_cluster %q is not declared") (d ∷ ds)) ≡ ok c =
        rw missing at h in
      cc bad
  | inr (w, found) ↦
      let loaded : ok (record { root = abs; default_cluster = d ∷ ds; clusters = targets }) ≡ ok c =
        rw found at h in
      subst (IsCatalog abs) (ok_injective loaded) (record {
        has_root = refl;
        resolved = r;
        has_default = (w, found);
        names_default = ground arith;
      })
]

load_clusters-IsCatalog :
    (abs chosen : Text) (clusters : List (Text × Option Workspace)) (c : Catalog)
    → load_clusters abs chosen clusters ≡ ok c
    → IsCatalog abs c
unfolding load_clusters
load_clusters-IsCatalog abs [] clusters c h = ground arith
load_clusters-IsCatalog abs (d ∷ ds) clusters c h =
    let (targets, e, h') = >>=-eq-ok (load_targets abs clusters) _ h in
    check_default-IsCatalog abs d ds targets c (load_targets-AllResolved abs clusters targets e) h'

resolve_clusters-IsCatalog :
    (abs : Text) (marker : MarkerFile) (clusters : List (Text × Option Workspace)) (c : Catalog)
    → clusters ≢ []
    → resolve_clusters abs marker clusters ≡ ok c
    → IsCatalog abs c
unfolding resolve_clusters
resolve_clusters-IsCatalog abs marker [] c some_cluster h = absurd (some_cluster refl)
resolve_clusters-IsCatalog abs marker (target ∷ more) c some_cluster h =
    load_clusters-IsCatalog abs _ (target ∷ more) c h

-- What `loadCatalog` accepts of a marker that declares clusters: every target is validated and
-- stands under its own valid ID and in the root, and the default is one of them.
pub resolve_marker-IsCatalog :
    (abs : Text) (marker : MarkerFile) (c : Catalog)
    → marker.clusters ≢ []
    → resolve_marker abs marker ≡ ok c
    → IsCatalog abs c
unfolding resolve_marker
resolve_marker-IsCatalog abs marker c some_cluster h =
    resolve_clusters-IsCatalog abs marker marker.clusters c some_cluster h

-- The target that `Select` returns has the ID that was asked for, and its paths lie in the root.
pub record IsSelected (abs id : Text) (w : Workspace) : Type 0 where
  pub has_id : w.id ≡ id
  pub yaml_inside : IsInside abs (cluster_yaml_path w)
  pub secrets_inside : (app : Text) → IsInside abs (secret_path w app)

IsResolved-IsSelected :
    (abs id : Text) (w : Workspace) → is_abs abs ≡ true → IsResolved abs id w → IsSelected abs id w
IsResolved-IsSelected abs id w a r =
    let inside = λ (app : Text). validate_workspace-IsInside w app (rw r.has_root a) r.validated in
    record {
      has_id = r.has_id;
      yaml_inside = subst (λ root. IsInside root (cluster_yaml_path w)) r.has_root (inside []).0;
      secrets_inside =
          λ app. subst (λ root. IsInside root (secret_path w app)) r.has_root (inside app).1;
    }

found_target-eq :
    (wanted : Text) (o : Option Workspace) (w : Workspace)
    → found_target wanted o ≡ ok w
    → o ≡ some w
found_target-eq wanted none w h = ground arith
found_target-eq wanted (some v) w h = ap some (ok_injective h)

pub select-IsSelected :
    (abs : Text) (c : Catalog) (id : Text) (w : Workspace)
    → is_abs abs ≡ true
    → IsCatalog abs c
    → select (some c) id ≡ ok w
    → IsSelected abs (or_else id c.default_cluster) w
unfolding select
select-IsSelected abs c id w a k h =
    let wanted = or_else id c.default_cluster in
    IsResolved-IsSelected abs wanted w a
      (lookup-AllResolved abs wanted c.clusters w k.resolved (found_target-eq wanted _ w h))

-- From a marker with clusters to a target: whatever is selected of the catalog has the ID that was
-- asked for, or the default one, and its manifest and its Secret files lie in the workspace root.
pub resolve_marker-select :
    (abs : Text) (marker : MarkerFile) (c : Catalog) (id : Text) (w : Workspace)
    → is_abs abs ≡ true
    → marker.clusters ≢ []
    → resolve_marker abs marker ≡ ok c
    → select (some c) id ≡ ok w
    → IsSelected abs (or_else id c.default_cluster) w
resolve_marker-select abs marker c id w a some_cluster h =
    select-IsSelected abs c id w a (resolve_marker-IsCatalog abs marker c some_cluster h)

select_default :
    (c : Catalog) (w : Workspace)
    → lookup c.default_cluster c.clusters ≡ some w
    → select (some c) [] ≡ ok w
unfolding select
select_default c w e = rw e

flat-select_default :
    (abs : Text) (marker : MarkerFile) (c : Catalog)
    → resolve_clusters abs marker [] ≡ ok c
    → (w : Workspace) × (select (some c) [] ≡ ok w)
unfolding resolve_clusters select lookup
flat-select_default abs marker c h =
    (flat_target abs marker.workspace, rw (← ok_injective h) (unfold eq_text in refl))

cases-select_default :
    (abs : Text) (marker : MarkerFile) (clusters : List (Text × Option Workspace)) (c : Catalog)
    → resolve_clusters abs marker clusters ≡ ok c
    → (w : Workspace) × (select (some c) [] ≡ ok w)
cases-select_default abs marker [] c h = flat-select_default abs marker c h
cases-select_default abs marker (target ∷ more) c h =
    let k = resolve_clusters-IsCatalog abs marker (target ∷ more) c (ground arith) h in
    (k.has_default.0, select_default c k.has_default.0 k.has_default.1)

-- Every catalog that loads, flat or with clusters, has a target to select when no ID is given.
pub resolve_marker-has_default :
    (abs : Text) (marker : MarkerFile) (c : Catalog)
    → resolve_marker abs marker ≡ ok c
    → (w : Workspace) × (select (some c) [] ≡ ok w)
unfolding resolve_marker
resolve_marker-has_default abs marker c h = cases-select_default abs marker marker.clusters c h
