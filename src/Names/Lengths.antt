-- ===== src/Names/Lengths.antt =====
-- How long the name normalisers' results are.
use cnpg_portal.Prelude.{
  ℕ, zero, suc, ◌≤◌, ◌≡◌, refl, Text, codes, [], ◌∷◌, Bool, arith, length, keep, length-keep-le,
  ◌⊎◌, inl, inr,
}
use cnpg_portal.Strings.{to_lower, trim, trim_left, trim_right, trim_space, replace_all, is_space}
use cnpg_portal.Strings.Dashes.{
  dash, collapse, collapse_loop, halve_doubles, length-halve_doubles-le,
}
use cnpg_portal.Names.{dns1123_basename, label_rune, is_dash, or_app}

length-to_lower : (s : Text) → length (to_lower s) ≡ length s
unfolding to_lower
length-to_lower [] = refl
length-to_lower (c ∷ s) = omega (arith, length-to_lower s)

length-trim_left-le : (p : ℕ → Bool) (s : Text) → length (trim_left p s) ≤ length s
unfolding trim_left
length-trim_left-le p [] = omega arith
length-trim_left-le p (c ∷ s) = ground (arith, length-trim_left-le p s)

length-trim_right-le : (p : ℕ → Bool) (s : Text) → length (trim_right p s) ≤ length s
unfolding trim_right
length-trim_right-le p [] = omega arith
length-trim_right-le p (c ∷ s) = ground (arith, length-trim_right-le p s)

length-trim-le : (p : ℕ → Bool) (s : Text) → length (trim p s) ≤ length s
unfolding trim
length-trim-le p s = omega (arith, length-trim_right-le p (trim_left p s), length-trim_left-le p s)

length-replace_all : (c d : ℕ) (s : Text) → length (replace_all c (d ∷ []) s) ≡ length s
unfolding replace_all
length-replace_all c d [] = refl
length-replace_all c d (e ∷ s) = ground (arith, length-replace_all c d s)

length-collapse_loop-le : (fuel : ℕ) (s : Text) → length (collapse_loop fuel s) ≤ length s
unfolding collapse_loop
length-collapse_loop-le zero s = omega arith
length-collapse_loop-le (suc fuel) s =
    ground (arith, length-halve_doubles-le s, length-collapse_loop-le fuel (halve_doubles s))

length-collapse-le : (s : Text) → length (collapse s) ≤ length s
unfolding collapse
length-collapse-le s = length-collapse_loop-le (length s) s

length-or_app :
    (s : Text) (n : ℕ) → length s ≤ n → (or_app s ≡ codes "app") ⊎ (length (or_app s) ≤ n)
length-or_app [] n h = inl refl
length-or_app (c ∷ s) n h = inr h

-- The normalised name is "app", or no longer than the name.
pub length-dns1123_basename-le :
    (app : Text)
    → (dns1123_basename app ≡ codes "app") ⊎ (length (dns1123_basename app) ≤ length app)
unfolding dns1123_basename trim_space
length-dns1123_basename-le app =
    let lowered = trim is_space (to_lower app) in
    let s = replace_all b'_' (dash ∷ []) lowered in
    let kept = keep label_rune s in
    length-or_app (trim is_dash (collapse kept)) (length app) (
      omega (
        arith,
        length-trim-le is_dash (collapse kept),
        length-collapse-le kept,
        length-keep-le label_rune s,
        length-replace_all b'_' dash lowered,
        length-trim-le is_space (to_lower app),
        length-to_lower app,
      ))
