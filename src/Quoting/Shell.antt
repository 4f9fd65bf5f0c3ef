-- ===== src/Quoting/Shell.antt =====
-- A word of a POSIX shell: single quotes keep all up to the next one, and outside of quotes a
-- backslash keeps the next character.
use cnpg_portal.Prelude.{
  inr, inl, false, Bool-cases, true, ℕ, Text, ◌≡◌, refl, [], ◌∷◌, ◌++◌, Bool, Option, none, some,
  arith, ◌==◌, ◌||◌, if◌then◌else◌, append_assoc,
}
use cnpg_portal.Strings.{replace_all}
use cnpg_portal.Quoting.{quote, backslash, sh_quote}

pub data Mode : Type 0 where
  plain quoted escaped : Mode

abbrev put : ℕ → Option (Text × Text) → Option (Text × Text)
put c none = none
put c (some (s, rest)) = some (c ∷ s, rest)

abbrev pub ends_word : ℕ → Bool
ends_word c = c == b' ' || c == 10 || c == 9

-- the value of the word that begins here, and what follows it
unfoldable pub scan_word : Mode → Text → Option (Text × Text)
scan_word plain [] = some ([], [])
scan_word quoted [] = none
scan_word escaped [] = none
scan_word quoted (c ∷ s) =
    let closed = scan_word plain s in
    let kept = put c (scan_word quoted s) in if c == quote then closed else kept
scan_word escaped (c ∷ s) = put c (scan_word plain s)
scan_word plain (c ∷ s) =
    let opened = scan_word quoted s in
    let skip = scan_word escaped s in
    let kept = put c (scan_word plain s) in
    if c == quote
    then opened
    else if c == backslash
    then skip
    else if ends_word c
    then some ([], c ∷ s)
    else kept

-- the text that `sh_quote` puts between its outer quotes
abbrev inner : Text → Text
inner s = replace_all quote (quote ∷ backslash ∷ quote ∷ quote ∷ []) s

scan_word-hit :
    (s : Text)
    → scan_word quoted (quote ∷ backslash ∷ quote ∷ quote ∷ s) ≡ put quote (scan_word quoted s)
unfolding scan_word
scan_word-hit s = refl

scan_word-miss :
    (c : ℕ) (s : Text)
    → (c == quote) ≡ false
    → scan_word quoted (c ∷ s) ≡ put c (scan_word quoted s)
unfolding scan_word
scan_word-miss c s e = rw e

inner-hit :
    (c : ℕ) (s t : Text)
    → (c == quote) ≡ true
    → inner (c ∷ s) ++ t ≡ quote ∷ backslash ∷ quote ∷ quote ∷ (inner s ++ t)
unfolding replace_all
inner-hit c s t e = rw e

inner-miss : (c : ℕ) (s t : Text) → (c == quote) ≡ false → inner (c ∷ s) ++ t ≡ c ∷ (inner s ++ t)
unfolding replace_all
inner-miss c s t e = rw e

scan_word-inner :
    (s tail : Text) → scan_word quoted (inner s ++ quote ∷ b' ' ∷ tail) ≡ some (s, b' ' ∷ tail)
scan_word-inner [] tail = unfold scan_word replace_all in refl
scan_word-inner (c ∷ s) tail = elim (Bool-cases (c == quote)) [
  | inl e ↦
      rw (inner-hit c s (quote ∷ b' ' ∷ tail) e)
        (rw scan_word-hit (rw (scan_word-inner s tail) (ground arith)))
  | inr e ↦
      rw (inner-miss c s (quote ∷ b' ' ∷ tail) e)
        (rw (scan_word-miss c _ e) (rw (scan_word-inner s tail)))
]

-- A shell reads the quoted password back as one word, whatever characters it has.
pub scan_word-sh_quote :
    (s tail : Text) → scan_word plain (sh_quote s ++ b' ' ∷ tail) ≡ some (s, b' ' ∷ tail)
unfolding scan_word sh_quote
scan_word-sh_quote s tail = rw append_assoc (scan_word-inner s tail)
