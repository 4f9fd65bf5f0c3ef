-- ===== src/Strings/Dashes.antt =====
-- The runs of dashes that the name normalisers collapse.
use cnpg_portal.Prelude.{
  ℕ, zero, suc, ◌≤◌, ◌<◌, Text, ◌≡◌, refl, [], ◌∷◌, Bool, true, false, ◌&&◌, ◌||◌, ◌==◌, arith, all,
  length, if◌then◌else◌,
}
use cnpg_portal.Strings.{trim_left, trim_right, trim}

abbrev pub dash : ℕ
dash = b'-'

-- strings.Contains(s, "--")
unfoldable pub has_double : Text → Bool
has_double [] = false
has_double (c ∷ []) = false
has_double (c ∷ d ∷ s) = (c == dash && d == dash) || has_double (d ∷ s)

-- strings.ReplaceAll(s, "--", "-"): one pass from the left, over matches that do not overlap
unfoldable pub halve_doubles : Text → Text
halve_doubles [] = []
halve_doubles (c ∷ []) = c ∷ []
halve_doubles (c ∷ d ∷ s) =
    let merged = dash ∷ halve_doubles s in
    let kept = c ∷ halve_doubles (d ∷ s) in if c == dash && d == dash then merged else kept

-- for strings.Contains(s, "--") { s = strings.ReplaceAll(s, "--", "-") }, on fuel
unfoldable pub collapse_loop : ℕ → Text → Text
unfolding has_double halve_doubles
collapse_loop zero s = s
collapse_loop (suc fuel) s =
    let more = collapse_loop fuel (halve_doubles s) in if has_double s then more else s

-- Each pass drops a rune at least, so that the length of the text is fuel enough.
unfoldable pub collapse : Text → Text
unfolding collapse_loop
collapse s = collapse_loop (length s) s

pub length-halve_doubles-le : (s : Text) → length (halve_doubles s) ≤ length s
unfolding halve_doubles
length-halve_doubles-le [] = omega arith
length-halve_doubles-le (c ∷ []) = omega arith
length-halve_doubles-le (c ∷ d ∷ s) =
    ground (arith, length-halve_doubles-le s, length-halve_doubles-le (d ∷ s))

length-halve_doubles-lt : (s : Text) → has_double s ≡ true → length (halve_doubles s) < length s
unfolding halve_doubles has_double
length-halve_doubles-lt [] h = ground arith
length-halve_doubles-lt (c ∷ []) h = ground arith
length-halve_doubles-lt (c ∷ d ∷ s) h =
    ground (arith, length-halve_doubles-le s, length-halve_doubles-lt (d ∷ s))

collapse_loop-has_double :
    (fuel : ℕ) (s : Text) → length s ≤ fuel → has_double (collapse_loop fuel s) ≡ false
unfolding collapse_loop
collapse_loop-has_double zero [] h = unfold has_double in refl
collapse_loop-has_double zero (c ∷ s) h = absurd (omega arith)
collapse_loop-has_double (suc fuel) s h =
    ground (arith, length-halve_doubles-lt s, collapse_loop-has_double fuel (halve_doubles s))

-- The loop ends with no "--" left.
pub collapse-has_double : (s : Text) → has_double (collapse s) ≡ false
unfolding collapse
collapse-has_double s = collapse_loop-has_double (length s) s (omega arith)

pub collapse-eq : (s : Text) → has_double s ≡ false → collapse s ≡ s
unfolding collapse collapse_loop
collapse-eq [] h = refl
collapse-eq (c ∷ s) h = ground arith

module _ (q : ℕ → Bool) (q_dash : q dash ≡ true) where
  all-halve_doubles : (s : Text) → all q s ≡ true → all q (halve_doubles s) ≡ true
  unfolding halve_doubles
  all-halve_doubles [] h = refl
  all-halve_doubles (c ∷ []) h = h
  all-halve_doubles (c ∷ d ∷ s) h = ground (arith, all-halve_doubles s, all-halve_doubles (d ∷ s))

  all-collapse_loop : (fuel : ℕ) (s : Text) → all q s ≡ true → all q (collapse_loop fuel s) ≡ true
  unfolding collapse_loop
  all-collapse_loop zero s h = h
  all-collapse_loop (suc fuel) s h =
      ground (arith, all-halve_doubles s, all-collapse_loop fuel (halve_doubles s))

  pub all-collapse : (s : Text) → all q s ≡ true → all q (collapse s) ≡ true
  unfolding collapse
  all-collapse s h = all-collapse_loop (length s) s h

module _ (p : ℕ → Bool) where
  trim_left-has_double : (s : Text) → has_double s ≡ false → has_double (trim_left p s) ≡ false
  unfolding trim_left has_double
  trim_left-has_double [] h = refl
  trim_left-has_double (c ∷ []) h = ground arith
  trim_left-has_double (c ∷ d ∷ s) h = ground (arith, trim_left-has_double (d ∷ s))

  trim_right-has_double : (s : Text) → has_double s ≡ false → has_double (trim_right p s) ≡ false
  unfolding trim_right has_double
  trim_right-has_double [] h = refl
  trim_right-has_double (c ∷ []) h = ground arith
  trim_right-has_double (c ∷ d ∷ s) h = ground (arith, trim_right-has_double (d ∷ s))

  pub trim-has_double : (s : Text) → has_double s ≡ false → has_double (trim p s) ≡ false
  unfolding trim
  trim-has_double s h = trim_right-has_double (trim_left p s) (trim_left-has_double s h)
