-- ===== src/Quoting/Conninfo.antt =====
-- A value of a libpq conninfo string: bare up to a white space, or between single quotes, with a
-- backslash that keeps the next character in both forms.
use cnpg_portal.Prelude.{
  ℕ, Text, ◌≡◌, refl, [], ◌∷◌, ◌++◌, Bool, true, false, Option, none, some, arith, ◌==◌, ◌||◌, ◌&&◌,
  leb, if◌then◌else◌, all, not, inl, inr, Bool-cases,
}
use cnpg_portal.Strings.{contains_any}
use cnpg_portal.Quoting.{quote, backslash, needs_quotes, escape_both, libpq_escape}

abbrev put : ℕ → Option (Text × Text) → Option (Text × Text)
put c none = none
put c (some (s, rest)) = some (c ∷ s, rest)

-- isspace in the C locale
abbrev pub is_c_space : ℕ → Bool
is_c_space c = c == b' ' || (leb 9 c && leb c 13)

pub data Mode : Type 0 where
  bare bare_escaped quoted quoted_escaped : Mode

unfoldable pub scan_value : Mode → Text → Option (Text × Text)
scan_value bare [] = some ([], [])
scan_value bare_escaped [] = some ([], [])
scan_value quoted [] = none
scan_value quoted_escaped [] = none
scan_value bare_escaped (c ∷ s) = put c (scan_value bare s)
scan_value quoted_escaped (c ∷ s) = put c (scan_value quoted s)
scan_value bare (c ∷ s) =
    let skip = scan_value bare_escaped s in
    let kept = put c (scan_value bare s) in
    if is_c_space c then some ([], c ∷ s) else if c == backslash then skip else kept
scan_value quoted (c ∷ s) =
    let skip = scan_value quoted_escaped s in
    let kept = put c (scan_value quoted s) in
    if c == quote then some ([], s) else if c == backslash then skip else kept

-- Behind the equals sign, white space is skipped; a value begins with a quote, or it is bare.
unfoldable pub read_value : Text → Option (Text × Text)
unfolding scan_value
read_value [] = some ([], [])
read_value (c ∷ s) =
    let later = read_value s in
    if is_c_space c
    then later
    else if c == quote
    then scan_value quoted s
    else scan_value bare (c ∷ s)

scan_value-quoted :
    (s rest : Text) → scan_value quoted (escape_both s ++ quote ∷ rest) ≡ some (s, rest)
unfolding scan_value escape_both
scan_value-quoted [] rest = refl
scan_value-quoted (c ∷ s) rest = ground (arith, scan_value-quoted s rest)

-- A space of the C locale other than the blank: tab, line feed, vertical tab, form feed, return.
abbrev pub other_space : ℕ → Bool
other_space c = leb 9 c && leb c 13

abbrev pub not_other_space : ℕ → Bool
not_other_space c = not (other_space c)

scan_value-bare :
    (s : Text)
    → contains_any s needs_quotes ≡ false
    → all not_other_space s ≡ true
    → scan_value bare s ≡ some (s, [])
unfolding scan_value contains_any
scan_value-bare [] h k = refl
scan_value-bare (c ∷ s) h k = ground (arith, scan_value-bare s)

read_value-bare :
    (s : Text)
    → contains_any s needs_quotes ≡ false
    → all not_other_space s ≡ true
    → read_value s ≡ some (s, [])
unfolding read_value contains_any
read_value-bare [] h k = refl
read_value-bare (c ∷ s) h k = ground (arith, scan_value-bare (c ∷ s) h k)

-- A conninfo parser reads the escaped password back, if the password holds no tab, line feed,
-- vertical tab, form feed or carriage return. The password is the last value of the string.
pub read_value-libpq_escape :
    (pw : Text) → all not_other_space pw ≡ true → read_value (libpq_escape pw) ≡ some (pw, [])
unfolding libpq_escape
read_value-libpq_escape pw k = elim (Bool-cases (contains_any pw needs_quotes)) [
  | inl e ↦ rw e (unfold read_value in scan_value-quoted pw [])
  | inr e ↦ rw e (read_value-bare pw e k)
]

scan_value-cut :
    (s t : Text) (c : ℕ)
    → contains_any s needs_quotes ≡ false
    → all not_other_space s ≡ true
    → other_space c ≡ true
    → scan_value bare (s ++ c ∷ t) ≡ some (s, c ∷ t)
unfolding scan_value contains_any
scan_value-cut [] t c h k e = ground arith
scan_value-cut (d ∷ s) t c h k e = ground (arith, scan_value-cut s t c)

read_value-cut :
    (s t : Text) (d c : ℕ)
    → contains_any (d ∷ s) needs_quotes ≡ false
    → all not_other_space (d ∷ s) ≡ true
    → other_space c ≡ true
    → read_value (d ∷ s ++ c ∷ t) ≡ some (d ∷ s, c ∷ t)
unfolding read_value contains_any
read_value-cut s t d c h k e = ground (arith, scan_value-cut (d ∷ s) t c h k e)

contains_any-left :
    (s t : Text) (p : ℕ → Bool) → contains_any (s ++ t) p ≡ false → contains_any s p ≡ false
unfolding contains_any
contains_any-left [] t p h = refl
contains_any-left (c ∷ s) t p h = ground (arith, contains_any-left s t p)

-- A password without blanks, quotes and backslashes, with a tab, line feed, vertical tab, form feed
-- or carriage return behind its first character, and with no such character before, is rendered
-- bare, and the parser reads only what stands before that character.
pub libpq_escape_cuts :
    (s t : Text) (d c : ℕ)
    → contains_any (d ∷ s ++ c ∷ t) needs_quotes ≡ false
    → all not_other_space (d ∷ s) ≡ true
    → other_space c ≡ true
    → read_value (libpq_escape (d ∷ s ++ c ∷ t)) ≡ some (d ∷ s, c ∷ t)
unfolding libpq_escape
libpq_escape_cuts s t d c h k e =
    rw h (read_value-cut s t d c (contains_any-left (d ∷ s) (c ∷ t) needs_quotes h) k e)
