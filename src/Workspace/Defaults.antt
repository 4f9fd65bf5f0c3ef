-- ===== src/Workspace/Defaults.antt =====
-- What `applyDefaults` fills in.
use cnpg_portal.Prelude.{
  ℕ, ◌+◌, Text, [], ◌∷◌, ◌++◌, true, ◌≡◌, ◌≢◌, refl, arith, all, length, take, some, none, suc,
}
use native.Mathlib.Numerals.{add-one}
use cnpg_portal.Strings.{last_index, drop}
use cnpg_portal.Names.{is_digit}
use cnpg_portal.Workspace.{Workspace, or_else, cluster_of_pod, apply_defaults}

last_index-none : (s : Text) → all is_digit s ≡ true → last_index b'-' s ≡ none
unfolding last_index
last_index-none [] h = refl
last_index-none (c ∷ s) h = ground (arith, last_index-none s)

last_index-append :
    (s t : Text) → all is_digit t ≡ true → last_index b'-' (s ++ b'-' ∷ t) ≡ some (length s)
unfolding last_index
last_index-append [] t h = rw (last_index-none t h) refl
last_index-append (c ∷ s) t h = rw (last_index-append s t h) refl

drop-suc-append : (s t : Text) (c : ℕ) → drop (suc (length s)) (s ++ c ∷ t) ≡ t
unfolding drop
drop-suc-append [] t c = refl
drop-suc-append (d ∷ s) t c = drop-suc-append s t c

drop-append : (s t : Text) (c : ℕ) → drop (length s + 1) (s ++ c ∷ t) ≡ t
drop-append s t c = rw add-one (drop-suc-append s t c)

take-append : (s t : Text) → take (length s) (s ++ t) ≡ s
take-append [] t = refl
take-append (c ∷ s) t = ground (arith, take-append s t)

-- CNPG's name of an instance pod gives the name of its cluster back.
pub cluster_of_pod-append :
    (name index : Text)
    → name ≢ []
    → index ≢ []
    → all is_digit index ≡ true
    → cluster_of_pod (name ++ b'-' ∷ index) ≡ name
unfolding cluster_of_pod
cluster_of_pod-append [] index h k e = absurd (h refl)
cluster_of_pod-append (c ∷ name) [] h k e = absurd (k refl)
cluster_of_pod-append (c ∷ name) (d ∷ index) h k e =
    rw (last_index-append (c ∷ name) (d ∷ index) e, cluster_of_pod)
      (rw (drop-append (c ∷ name) (d ∷ index) b'-')
        (rw e (ground (arith, take-append (c ∷ name) (b'-' ∷ d ∷ index)))))

or_else_idem : (s d : Text) → or_else (or_else s d) d ≡ or_else s d
or_else_idem [] [] = refl
or_else_idem [] (c ∷ d) = refl
or_else_idem (c ∷ s) d = refl

-- Filling the defaults in twice is filling them in once.
pub apply_defaults_idempotent :
    (w : Workspace) → apply_defaults (apply_defaults w) ≡ apply_defaults w
unfolding apply_defaults
apply_defaults_idempotent w = simp or_else_idem
