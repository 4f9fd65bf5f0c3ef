-- ===== src/Web/Targets.antt =====
-- The targets of a registry (internal/web/clusters.go).
use cnpg_portal.Prelude.{
  codes, Text, List, [], ◌∷◌, ◌++◌, map, All, Bool, true, false, Option, none, some, ◌≡◌, refl, sym,
  ◌∙◌, subst, eq_text_refl, is_empty, append_assoc, append-nil, arith, if◌then◌else◌,
}
use cnpg_portal.Result.{message_about, message, Error, Result, ok, err}
use cnpg_portal.Result.Bind.{>>=-eq-ok}
use cnpg_portal.Web.Registry.{
  ClusterTarget, ClusterRegistry, find_target, index_targets, finish_registry, new_cluster_registry,
  shown, default_target,
}

abbrev pub Targets : Type 0
Targets = List (Text × ClusterTarget)

abbrev entry_of : ClusterTarget → Text × ClusterTarget
entry_of t = (t.id, shown t)

find_target-append :
    (id : Text) (xs ys : Targets) (t : ClusterTarget)
    → find_target id xs ≡ some t
    → find_target id (xs ++ ys) ≡ some t
unfolding find_target
find_target-append id [] ys t e = absurd (cc e)
find_target-append id ((k, u) ∷ xs) ys t e = ground (arith, find_target-append id xs ys t)

find_target-last :
    (id : Text) (xs : Targets) (t : ClusterTarget)
    → find_target id xs ≡ none
    → find_target id (xs ++ (id, t) ∷ []) ≡ some t
unfolding find_target
find_target-last id [] t e = let r = eq_text_refl id in ground arith
find_target-last id ((k, u) ∷ xs) t e = ground (arith, find_target-last id xs t)

-- every target is found under its own ID
abbrev pub IsRouted : Targets → List ClusterTarget → Type 0
IsRouted out ts = All (λ t. find_target t.id out ≡ some (shown t)) ts

record Indexed (seen : Targets) (ts : List ClusterTarget) (out : Targets) : Type 0 where
  all_of : out ≡ seen ++ map entry_of ts
  routed : IsRouted out ts

accepted :
    (empty : Bool) (o : Option ClusterTarget) (rest : Result Targets) (a b : Error) {out : Targets}
    → (if empty then err a else elim o [ some u ↦ err b | none ↦ rest ]) ≡ ok out
    → (o ≡ none) × (rest ≡ ok out)
accepted true o rest a b e = absurd (cc e)
accepted false (some u) rest a b e = absurd (cc e)
accepted false none rest a b e = (refl, e)

index_targets-cons :
    (seen : Targets) (t : ClusterTarget) (ts : List ClusterTarget) {out : Targets}
    → index_targets seen (t ∷ ts) ≡ ok out
    → (find_target t.id seen ≡ none) × (index_targets (seen ++ entry_of t ∷ []) ts ≡ ok out)
unfolding index_targets
index_targets-cons seen t ts e =
    accepted (is_empty t.id) (find_target t.id seen) _
      (message (codes "cluster target has an empty ID"))
      (message_about (codes "duplicate cluster target %q") t.id) e

index_targets-Indexed :
    (seen : Targets) (ts : List ClusterTarget) {out : Targets}
    → index_targets seen ts ≡ ok out
    → Indexed seen ts out
unfolding index_targets
index_targets-Indexed seen [] {out} e =
    let same : seen ≡ out = cc e in
    record { all_of = sym same ∙ sym (append-nil seen); routed = tt }
index_targets-Indexed seen (t ∷ ts) {out} e =
    let (fresh, rest) = index_targets-cons seen t ts e in
    let more = index_targets-Indexed (seen ++ entry_of t ∷ []) ts rest in
    let whole = more.all_of in
    record {
      all_of = whole ∙ append_assoc seen (entry_of t ∷ []) (map entry_of ts);
      routed = (
        subst (λ o. find_target t.id o ≡ some (shown t)) (sym whole)
            (find_target-append t.id _ _ _ (find_target-last t.id seen (shown t) fresh)),
        more.routed,
      );
    }

abbrev IsChosen : Text → Targets → ClusterRegistry → Type 0
IsChosen default_id out r =
    (r.targets ≡ out)
    × ((t : ClusterTarget) × (find_target r.default_id r.targets ≡ some t))
    × (is_empty default_id ≡ false → r.default_id ≡ default_id)

default_target-named : (id : Text) (ts : Targets) → is_empty id ≡ false → default_target id ts ≡ id
unfolding default_target
default_target-named [] ts e = absurd (cc e)
default_target-named (c ∷ id) ts e = refl

found-IsChosen :
    (default_id : Text) (out : Targets) (o : Option ClusterTarget) (a : Error) {r : ClusterRegistry}
    → find_target (default_target default_id out) out ≡ o
    → (elim o [
      | none ↦ err a
      | some u ↦ ok (record { default_id = default_target default_id out; targets = out })
    ])
      ≡ ok r
    → IsChosen default_id out r
found-IsChosen default_id out none a f e = absurd (cc e)
found-IsChosen default_id out (some t) a {r} f e =
    let same : record { default_id = default_target default_id out; targets = out } ≡ r = cc e in
    subst (IsChosen default_id out) same (refl, (t, f), default_target-named default_id out)

finish_registry-IsChosen :
    (default_id : Text) (out : Targets) {r : ClusterRegistry}
    → finish_registry default_id out ≡ ok r
    → IsChosen default_id out r
unfolding finish_registry
finish_registry-IsChosen default_id [] e = absurd (cc e)
finish_registry-IsChosen default_id (t ∷ ts) e = found-IsChosen default_id (t ∷ ts) _ _ refl e

-- A registry that NewClusterRegistry makes has the targets that it was given, in their order, under
-- their IDs and none else; a lookup of the ID of one of them finds that one and no other; and its
-- default is one of them, the named one where a default was named.
pub new_cluster_registry-IsRouted :
    (default_id : Text) (ts : List ClusterTarget) (r : ClusterRegistry)
    → new_cluster_registry default_id ts ≡ ok r
    → (r.targets ≡ map (λ t. (t.id, shown t)) ts)
      × IsRouted r.targets ts
      × ((t : ClusterTarget) × (find_target r.default_id r.targets ≡ some t))
      × (is_empty default_id ≡ false → r.default_id ≡ default_id)
unfolding new_cluster_registry
new_cluster_registry-IsRouted default_id ts r e =
    let (out, indexed, finished) = >>=-eq-ok (index_targets [] ts) _ e in
    let (same, found, chosen) = finish_registry-IsChosen default_id out finished in
    let all_indexed = index_targets-Indexed [] ts indexed in
    (
      same ∙ all_indexed.all_of,
      subst (λ o. IsRouted o ts) (sym same) all_indexed.routed,
      found,
      chosen,
    )
