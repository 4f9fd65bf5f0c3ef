-- ===== src/Strings/Trim.antt =====
-- Trimming and lower case.
use cnpg_portal.Prelude.{ℕ, Text, ◌≡◌, refl, ap, ◌∙◌, [], ◌∷◌, Bool, true, false, some, arith, all}
use cnpg_portal.Strings.{to_lower_rune, to_lower, trim_left, trim_right, trim, first?, last?}

module _ (p q : ℕ → Bool) where
  all-trim_left : (s : Text) → all q s ≡ true → all q (trim_left p s) ≡ true
  unfolding trim_left
  all-trim_left [] h = refl
  all-trim_left (c ∷ s) h = ground (arith, all-trim_left s)

  all-trim_right : (s : Text) → all q s ≡ true → all q (trim_right p s) ≡ true
  unfolding trim_right
  all-trim_right [] h = refl
  all-trim_right (c ∷ s) h = ground (arith, all-trim_right s)

  pub all-trim : (s : Text) → all q s ≡ true → all q (trim p s) ≡ true
  unfolding trim
  all-trim s h = all-trim_right (trim_left p s) (all-trim_left s h)

module _ (p : ℕ → Bool) where
  -- The first rune of a text, if it has one, does not pass `p`.
  abbrev pub StartsOff : Text → Type 0
  StartsOff s = (c : ℕ) → first? s ≡ some c → p c ≡ false

  -- The last rune of a text, if it has one, does not pass `p`.
  abbrev pub EndsOff : Text → Type 0
  EndsOff s = (c : ℕ) → last? s ≡ some c → p c ≡ false

  trim_left-StartsOff : (s : Text) → StartsOff (trim_left p s)
  unfolding trim_left first?
  trim_left-StartsOff [] c h = ground arith
  trim_left-StartsOff (d ∷ s) c h = ground (arith, trim_left-StartsOff s c)

  trim_right-EndsOff : (s : Text) → EndsOff (trim_right p s)
  unfolding trim_right last?
  trim_right-EndsOff [] c h = ground arith
  trim_right-EndsOff (d ∷ s) c h = ground (arith, trim_right-EndsOff s c)

  trim_right-StartsOff : (s : Text) → StartsOff s → StartsOff (trim_right p s)
  unfolding trim_right first?
  trim_right-StartsOff [] h c e = ground arith
  trim_right-StartsOff (d ∷ s) h c e = ground (arith, h d)

  pub trim-StartsOff : (s : Text) → StartsOff (trim p s)
  unfolding trim
  trim-StartsOff s = trim_right-StartsOff (trim_left p s) (trim_left-StartsOff s)

  pub trim-EndsOff : (s : Text) → EndsOff (trim p s)
  unfolding trim
  trim-EndsOff s = trim_right-EndsOff (trim_left p s)

  trim_left-eq : (s : Text) → StartsOff s → trim_left p s ≡ s
  unfolding trim_left first?
  trim_left-eq [] h = refl
  trim_left-eq (c ∷ s) h = ground (arith, h c)

  trim_right-eq : (s : Text) → EndsOff s → trim_right p s ≡ s
  unfolding trim_right last?
  trim_right-eq [] h = refl
  trim_right-eq (c ∷ []) h = ground (arith, h c)
  trim_right-eq (c ∷ d ∷ s) h = ground (arith, trim_right-eq (d ∷ s) h)

  -- A text whose ends do not pass `p` is left alone.
  pub trim-eq : (s : Text) → StartsOff s → EndsOff s → trim p s ≡ s
  unfolding trim
  trim-eq s h k = ap (trim_right p) (trim_left-eq s h) ∙ trim_right-eq s k

-- Lower case changes no lower-case letter, digit or ASCII sign.
pub to_lower-eq :
    (q : ℕ → Bool) (s : Text)
    → ((c : ℕ) → q c ≡ true → to_lower_rune c ≡ c)
    → all q s ≡ true
    → to_lower s ≡ s
unfolding to_lower
to_lower-eq q [] f h = refl
to_lower-eq q (c ∷ s) f h = ground (arith, f c, to_lower-eq q s f)
