-- ===== src/Workspace/Confinement.antt =====
-- internal/workspace/workspace.go: the paths of a target that passes the validation.
use cnpg_portal.Prelude.{
  ℕ, Text, codes, eq_text, [], ◌∷◌, ◌++◌, Bool, true, false, ◌≡◌, refl, arith, ◌==◌, is_empty,
  Bool-cases, inl, inr, all, not, all-append, all_mono, length, length-append, ap, ◌≤◌,
}
use cnpg_portal.Strings.{join, split, has_prefix}
use cnpg_portal.Names.{label_rune, dns1123_basename}
use cnpg_portal.Names.Labels.{dns1123_basename-IsLabelText}
use cnpg_portal.Paths.{clean, is_abs}
use cnpg_portal.Paths.Inside.{IsProper}
use cnpg_portal.Paths.Joining.{
  IsInside, StaysBelow, clean-StaysBelow, join_path-IsInside, join_path_name-IsInside,
}
use cnpg_portal.Result.{ok}
use cnpg_portal.Workspace.{
  Workspace, cluster_yaml_path, secret_path, secret_name, credentials_suffix,
  validate_relative_path, validate_workspace,
}

empty-StaysBelow : StaysBelow []
unfolding is_abs clean split join has_prefix eq_text
empty-StaysBelow = clean-StaysBelow [] refl refl refl

pub validate_relative_path-StaysBelow :
    (field value : Text) (file : Bool)
    → validate_relative_path field value file ≡ ok tt
    → StaysBelow value
unfolding validate_relative_path
validate_relative_path-StaysBelow field [] file h = empty-StaysBelow
validate_relative_path-StaysBelow field (c ∷ s) file h =
    clean-StaysBelow (c ∷ s) (ground arith) (ground arith) (ground arith)

pub validate_workspace-StaysBelow :
    (w : Workspace)
    → validate_workspace w ≡ ok tt
    → StaysBelow w.cluster_yaml × StaysBelow w.secrets_dir
unfolding validate_workspace
validate_workspace-StaysBelow w h = (
  validate_relative_path-StaysBelow (codes "cluster_yaml") w.cluster_yaml true (ground arith),
  validate_relative_path-StaysBelow (codes "secrets_dir") w.secrets_dir false (ground arith),
)

-- The file name of a Secret is one name of a path.
abbrev file_rune : ℕ → Bool
file_rune c = not (c == b'/')

split_one-cons :
    (c : ℕ) (s : Text)
    → (c == b'/') ≡ false
    → split b'/' s ≡ s ∷ []
    → split b'/' (c ∷ s) ≡ (c ∷ s) ∷ []
unfolding split
split_one-cons c s e h = rw (e, h)

split_one : (s : Text) → all file_rune s ≡ true → split b'/' s ≡ s ∷ []
split_one [] h = unfold split in refl
split_one (c ∷ s) h = split_one-cons c s (ground arith) (split_one s (ground arith))

secret_name-runes : (w : Workspace) (app : Text) → all label_rune (secret_name w app) ≡ true
unfolding secret_name
secret_name-runes w app = elim (Bool-cases (is_empty w.secret_prefix)) [
  | inl e ↦ rw e (all-append label_rune (dns1123_basename app) credentials_suffix base refl)
  | inr e ↦ rw e (
      all-append label_rune (dns1123_basename w.secret_prefix ++ b'-' ∷ dns1123_basename app)
        credentials_suffix
        (all-append label_rune (dns1123_basename w.secret_prefix) (b'-' ∷ dns1123_basename app)
          (dns1123_basename-IsLabelText w.secret_prefix).0.runes base)
        refl)
]
  where
    base : all label_rune (dns1123_basename app) ≡ true
    base = (dns1123_basename-IsLabelText app).0.runes

label→file : (c : ℕ) → label_rune c ≡ true → file_rune c ≡ true
label→file c h = ground arith

file_name-split :
    (w : Workspace) (app : Text)
    → split b'/' (secret_name w app ++ codes ".sops.yaml")
      ≡ (secret_name w app ++ codes ".sops.yaml") ∷ []
file_name-split w app = split_one _ (
    all-append file_rune (secret_name w app) (codes ".sops.yaml")
      (all_mono label_rune file_rune (secret_name w app) label→file (secret_name-runes w app)) refl)

-- a text of three runes or more is neither "", "." nor ".."
long-IsProper : (s t : Text) → 3 ≤ length t → IsProper (s ++ t)
long-IsProper s t h = record {
  not_empty = λ e. omega (arith, ap length e, length-append s t);
  not_dot = λ e. omega (arith, ap length e, length-append s t);
  not_dotdot = λ e. omega (arith, ap length e, length-append s t);
}

-- Both paths of a target that passes the validation lie in the workspace root, for every tenant.
pub validate_workspace-IsInside :
    (w : Workspace) (app : Text)
    → is_abs w.root ≡ true
    → validate_workspace w ≡ ok tt
    → IsInside w.root (cluster_yaml_path w) × IsInside w.root (secret_path w app)
unfolding cluster_yaml_path secret_path
validate_workspace-IsInside w app h v =
    let (yaml, dir) = validate_workspace-StaysBelow w v in
    (
      join_path-IsInside w.root w.cluster_yaml h yaml,
      join_path_name-IsInside w.root w.secrets_dir (secret_name w app ++ codes ".sops.yaml") h dir
          (file_name-split w app)
          (long-IsProper (secret_name w app) (codes ".sops.yaml") (omega arith)),
    )
