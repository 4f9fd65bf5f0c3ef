-- ===== src/Names/Labels.antt =====
-- What the name normalisers return.
use cnpg_portal.Prelude.{
  codes, ◌⊎◌, ◌≤◌, length, ℕ, Text, ◌≡◌, refl, ◌≢◌, [], ◌∷◌, Bool, true, false, arith, all, keep,
  some, all-keep, keep-eq_of_all, all_mono,
}
use cnpg_portal.Strings.{
  to_lower_rune, to_lower, is_space, trim, trim_space, replace_all, first?, last?,
}
use cnpg_portal.Strings.Trim.{
  StartsOff, EndsOff, all-trim, trim-StartsOff, trim-EndsOff, trim-eq, to_lower-eq,
}
use cnpg_portal.Strings.Dashes.{
  dash, has_double, collapse, collapse-has_double, collapse-eq, all-collapse, trim-has_double,
}
use cnpg_portal.Names.Lengths.{length-dns1123_basename-le}
use cnpg_portal.Names.{
  label_rune, is_dash, or_app, dns1123_basename, dns1123_label, dns1123_base, ident_safe,
  database_name_safe, ident_rune, database_rune,
}

-- The characters of a label: lower-case letters, digits and hyphens, at least one, with no hyphen at
-- an end and no two in a row. The length is not bounded.
pub record IsLabelText (s : Text) : Type 0 where
  pub full : s ≢ []
  pub runes : all label_rune s ≡ true
  pub starts : StartsOff is_dash s
  pub ends : EndsOff is_dash s
  pub single : has_double s ≡ false

or_app-IsLabelText :
    (s : Text)
    → all label_rune s ≡ true
    → StartsOff is_dash s
    → EndsOff is_dash s
    → has_double s ≡ false
    → IsLabelText (or_app s)
unfolding first? last? has_double
or_app-IsLabelText [] h a b d = record {
  full = ground arith;
  runes = refl;
  starts = λ c e. ground arith;
  ends = λ c e. ground arith;
  single = refl;
}
or_app-IsLabelText (c ∷ s) h a b d = record {
  full = ground arith;
  runes = h;
  starts = a;
  ends = b;
  single = d;
}

trimmed-IsLabelText :
    (s : Text) → IsLabelText (or_app (trim is_dash (collapse (keep label_rune s))))
trimmed-IsLabelText s =
    let kept = keep label_rune s in
    or_app-IsLabelText (trim is_dash (collapse kept))
      (all-trim is_dash label_rune _ (all-collapse label_rune refl kept (all-keep label_rune s)))
      (trim-StartsOff is_dash _) (trim-EndsOff is_dash _)
      (trim-has_double is_dash _ (collapse-has_double kept))

-- Whatever the name, the normalised name has the characters of a label: lower-case letters, digits
-- and hyphens, at least one, with no hyphen at an end and no two in a row. It is "app", or no longer
-- than the name: a name of at most 63 characters gives a label of at most 63.
pub dns1123_basename-IsLabelText :
    (app : Text)
    → IsLabelText (dns1123_basename app)
      × ((dns1123_basename app ≡ codes "app") ⊎ (length (dns1123_basename app) ≤ length app))
dns1123_basename-IsLabelText app =
    let text : IsLabelText (dns1123_basename app) =
      unfold dns1123_basename in
      trimmed-IsLabelText (replace_all b'_' (dash ∷ []) (trim_space (to_lower app))) in
    (text, length-dns1123_basename-le app)

-- The three packages normalise alike, so that the Secret that one names is the one another reads.
pub dns1123_agree :
    (app : Text)
    → (dns1123_label app ≡ dns1123_basename app) × (dns1123_base app ≡ dns1123_basename app)
unfolding dns1123_basename dns1123_label dns1123_base
dns1123_agree app = (refl, refl)

to_lower_rune-label : (c : ℕ) → label_rune c ≡ true → to_lower_rune c ≡ c
unfolding to_lower_rune
to_lower_rune-label c h = ground arith

is_space-label : (c : ℕ) → label_rune c ≡ true → is_space c ≡ false
unfolding is_space
is_space-label c h = ground arith

all-first? : (q : ℕ → Bool) (s : Text) (c : ℕ) → all q s ≡ true → first? s ≡ some c → q c ≡ true
unfolding first?
all-first? q [] c h e = ground arith
all-first? q (d ∷ s) c h e = ground arith

all-last? : (q : ℕ → Bool) (s : Text) (c : ℕ) → all q s ≡ true → last? s ≡ some c → q c ≡ true
unfolding last?
all-last? q [] c h e = ground arith
all-last? q (d ∷ []) c h e = ground arith
all-last? q (d ∷ x ∷ s) c h e = ground (arith, all-last? q (x ∷ s) c)

trim_space-label : (s : Text) → all label_rune s ≡ true → trim_space s ≡ s
unfolding trim_space
trim_space-label s h =
    trim-eq is_space s (λ c e. is_space-label c (all-first? label_rune s c h e))
      (λ c e. is_space-label c (all-last? label_rune s c h e))

replace_all-label : (to s : Text) → all label_rune s ≡ true → replace_all b'_' to s ≡ s
unfolding replace_all
replace_all-label to [] h = refl
replace_all-label to (c ∷ s) h = ground (arith, replace_all-label to s)

or_app-eq : (s : Text) → s ≢ [] → or_app s ≡ s
or_app-eq [] h = absurd (h refl)
or_app-eq (c ∷ s) h = refl

-- A label is left as it is.
pub dns1123_basename-eq : (s : Text) → IsLabelText s → dns1123_basename s ≡ s
unfolding dns1123_basename
dns1123_basename-eq s l = rw (to_lower-eq label_rune s to_lower_rune-label l.runes) (
    rw (trim_space-label s l.runes) (
      rw (replace_all-label (dash ∷ []) s l.runes) (
        rw (keep-eq_of_all label_rune s l.runes) (
          rw (collapse-eq s l.single)
            (rw (trim-eq is_dash s l.starts l.ends) (or_app-eq s l.full))))))

-- Normalising twice is normalising once.
pub dns1123_basename_idempotent :
    (app : Text) → dns1123_basename (dns1123_basename app) ≡ dns1123_basename app
dns1123_basename_idempotent app = dns1123_basename-eq _ (dns1123_basename-IsLabelText app).0

-- Every name that may be a new role may also be an existing database.
pub ident_safe→database_name_safe : (s : Text) → ident_safe s ≡ true → database_name_safe s ≡ true
unfolding ident_safe database_name_safe
ident_safe→database_name_safe [] h = ground arith
ident_safe→database_name_safe (c ∷ s) h =
    ground (
      arith,
      all_mono ident_rune database_rune s (λ (d : ℕ) (e : ident_rune d ≡ true). ground arith),
    )
