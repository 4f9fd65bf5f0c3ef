-- ===== src/Paths/Joining.antt =====
-- `filepath.Join` at an absolute folder, name by name.
use cnpg_portal.Prelude.{
  subst, ℕ, Text, eq_text, eq_text_iff, List, [], ◌∷◌, ◌++◌, reverse, Bool, true, false, ◌≡◌, ◌≢◌,
  refl, ap, ◌∙◌, sym, arith, All, All-append, ◌==◌, Bool-cases, inl, inr,
}
use mathlib.Core.List.{reverse-append, reverse-cons}
use cnpg_portal.Strings.{split, join, has_prefix, add_head}
use cnpg_portal.Paths.{
  slash, dot, dotdot, or_dot, clean_step, clean_parts, is_abs, clean, join_path,
}
use cnpg_portal.Paths.Inside.{IsProper, Climbs, Climbs-reverse, clean_parts-Follows}

add_head-append :
    (c : ℕ) (parts more : List Text)
    → parts ≢ []
    → add_head c (parts ++ more) ≡ add_head c parts ++ more
add_head-append c [] more h = absurd (h refl)
add_head-append c (part ∷ parts) more h = refl

split-ne-nil : (sep : ℕ) (s : Text) → split sep s ≢ []
unfolding split
split-ne-nil sep [] = ground arith
split-ne-nil sep (c ∷ s) = ground (arith, add_head-ne-nil c (split sep s))
  where
    add_head-ne-nil : (d : ℕ) (parts : List Text) → add_head d parts ≢ []
    add_head-ne-nil d [] = ground arith
    add_head-ne-nil d (part ∷ parts) = ground arith

pub split-append : (sep : ℕ) (s t : Text) → split sep (s ++ sep ∷ t) ≡ split sep s ++ split sep t
unfolding split
split-append sep [] t = ground arith
split-append sep (c ∷ s) t = elim (Bool-cases (c == sep)) [
  | inl e ↦ rw e (ap (λ (parts : List Text). [] ∷ parts) (split-append sep s t))
  | inr e ↦ rw e (
      ap (add_head c) (split-append sep s t)
      ∙ add_head-append c (split sep s) (split sep t) (split-ne-nil sep s))
]

clean_parts-append :
    (rooted : Bool) (stack parts more : List Text)
    → clean_parts rooted stack (parts ++ more)
      ≡ clean_parts rooted (clean_parts rooted stack parts) more
unfolding clean_parts
clean_parts-append rooted stack [] more = refl
clean_parts-append rooted stack (part ∷ parts) more =
    clean_parts-append rooted (clean_step rooted stack part) parts more

All-reverse {ℓ κ} : {A : Type ℓ} (P : A → Type κ) (xs : List A) → All P xs → All P (reverse xs)
All-reverse P [] h = tt
All-reverse P (x ∷ xs) (p, h) =
    subst (All P) (sym (reverse-cons x xs))
      (All-append P (reverse xs) (x ∷ []) (All-reverse P xs h) (p, tt))

-- The names of an absolute path.
unfoldable pub names : Text → List Text
names path = reverse (clean_parts true [] (split b'/' path))

-- The path lies in the folder: its names are those of the folder, and proper names after them.
pub record IsInside (root path : Text) : Type 0 where
  pub below : List Text
  pub proper : All IsProper below
  pub path_eq : path ≡ slash ++ join slash (names root ++ below)

-- The names of `value` do not climb out of the folder that they are counted from.
abbrev pub StaysBelow : Text → Type 0
StaysBelow value = ¬ Climbs (clean_parts false [] (split b'/' value))

clean-IsInside :
    (root value : Text)
    → is_abs (root ++ b'/' ∷ value) ≡ true
    → StaysBelow value
    → IsInside root (clean (root ++ b'/' ∷ value))
clean-IsInside root value h stays =
    elim (clean_parts-Follows [] (clean_parts true [] (split b'/' root)) (split b'/' value) tt) [
      | inl out ↦ absurd (stays out)
      | inr (e, k) ↦ record {
        below = reverse (clean_parts false [] (split b'/' value));
        proper = All-reverse IsProper _ k;
        path_eq =
            unfold clean names in
            rw (h, split-append b'/' root value, clean_parts-append)
              (ap (λ (stack : List Text). slash ++ join slash (reverse stack)) e
                ∙ rw reverse-append);
      }
    ]

is_abs-append : (root t : Text) → is_abs root ≡ true → is_abs (root ++ t) ≡ true
unfolding is_abs has_prefix
is_abs-append [] t h = ground arith
is_abs-append (c ∷ root) t h = ground arith

-- Joining a path that stays below to an absolute folder stays in the folder.
pub join_path-IsInside :
    (root value : Text)
    → is_abs root ≡ true
    → StaysBelow value
    → IsInside root (join_path (root ∷ value ∷ []))
unfolding join_path join
join_path-IsInside [] value h stays = absurd (unfold is_abs has_prefix in ground arith)
join_path-IsInside (c ∷ root) value h stays =
    clean-IsInside (c ∷ root) value (is_abs-append (c ∷ root) (b'/' ∷ value) h) stays

-- A stack of proper names with one more proper name on it does not climb.
Climbs-of_cons :
    (name : Text) (stack : List Text) → name ≢ dotdot → ¬ Climbs stack → ¬ Climbs (name ∷ stack)
Climbs-of_cons name [] h k climbs = h climbs
Climbs-of_cons name (next ∷ stack) h k climbs = k climbs

clean_step-proper :
    (stack : List Text) (name : Text) → IsProper name → clean_step false stack name ≡ name ∷ stack
unfolding clean_step
clean_step-proper stack name p =
    rw (miss name [] p.not_empty, miss name dot p.not_dot, miss name dotdot p.not_dotdot)
  where
    miss : (s t : Text) → s ≢ t → eq_text s t ≡ false
    miss s t h = elim (Bool-cases (eq_text s t)) [
      | inl e ↦ absurd (h ((eq_text_iff s t).0 e))
      | inr e ↦ e
    ]

-- A name without a slash, other than "", "." and "..", adds itself to a path that stays below.
pub name-StaysBelow :
    (dir name : Text)
    → StaysBelow dir
    → split b'/' name ≡ name ∷ []
    → IsProper name
    → StaysBelow (dir ++ b'/' ∷ name)
name-StaysBelow dir name stays whole p climbs =
    Climbs-of_cons name (clean_parts false [] (split b'/' dir)) p.not_dotdot stays
      (rw (split-append b'/' dir name, whole, clean_parts-append, clean_parts_one) at climbs)
  where
    clean_parts_one :
        clean_parts false (clean_parts false [] (split b'/' dir)) (name ∷ [])
        ≡ name ∷ clean_parts false [] (split b'/' dir)
    clean_parts_one = unfold clean_parts in clean_step-proper _ name p

-- The same for a path of three elements whose last is one name.
pub join_path_name-IsInside :
    (root dir name : Text)
    → is_abs root ≡ true
    → StaysBelow dir
    → split b'/' name ≡ name ∷ []
    → IsProper name
    → IsInside root (join_path (root ∷ dir ∷ name ∷ []))
unfolding join_path join
join_path_name-IsInside [] dir name h stays whole p =
    absurd (unfold is_abs has_prefix in ground arith)
join_path_name-IsInside (c ∷ root) dir name h stays whole p =
    clean-IsInside (c ∷ root) (dir ++ b'/' ∷ name)
      (is_abs-append (c ∷ root) (b'/' ∷ (dir ++ b'/' ∷ name)) h)
      (name-StaysBelow dir name stays whole p)

-- What `validateRelativePath` tests: a path whose cleaned form is neither ".." nor begins with
-- "../", and that is not absolute, stays below.
pub clean-StaysBelow :
    (value : Text)
    → is_abs value ≡ false
    → eq_text (clean value) dotdot ≡ false
    → has_prefix (clean value) (dotdot ++ slash) ≡ false
    → StaysBelow value
unfolding join
clean-StaysBelow value relative other deeper climbs =
    let (rest, e) = Climbs-reverse (clean_parts false [] (split b'/' value)) climbs in
    first_up rest (unfold clean in rw (relative, e) refl)
  where
    first_up : (rest : List Text) → clean value ≡ or_dot (join slash (dotdot ∷ rest)) → ⊥
    first_up [] e = cc (other, (eq_text_iff (clean value) dotdot).1 e)
    first_up (part ∷ rest) e =
        unfold join has_prefix in (let bad : true ≡ false = rw e at deeper in cc bad)
