-- ===== src/Quoting/Literal.antt =====
-- A PostgreSQL literal, as the server's scanner reads it with `standard_conforming_strings` on:
-- two quotes stand for one, and the first single quote ends the literal.
use cnpg_portal.Prelude.{
  ℕ, Text, ◌≡◌, refl, ◌≢◌, [], ◌∷◌, ◌++◌, Option, none, some, arith, ◌==◌, if◌then◌else◌,
}
use cnpg_portal.Strings.{replace_all, first?}
use cnpg_portal.Quoting.{quote, literal_escape}

abbrev put : ℕ → Option (Text × Text) → Option (Text × Text)
put c none = none
put c (some (s, rest)) = some (c ∷ s, rest)

-- from behind the opening quote: the value of the literal, and the script that follows it
unfoldable pub scan_literal : Text → Option (Text × Text)
scan_literal [] = none
scan_literal (c ∷ []) = if c == quote then some ([], []) else none
scan_literal (c ∷ d ∷ s) =
    let doubled = put quote (scan_literal s) in
    let plain = put c (scan_literal (d ∷ s)) in
    if c == quote then if d == quote then doubled else some ([], d ∷ s) else plain

scan_literal-quote :
    (rest : Text) → first? rest ≢ some quote → scan_literal (quote ∷ rest) ≡ some ([], rest)
unfolding scan_literal first?
scan_literal-quote [] h = refl
scan_literal-quote (d ∷ rest) h = ground arith

scan_literal-plain :
    (c : ℕ) (s : Text) → c ≢ quote → s ≢ [] → scan_literal (c ∷ s) ≡ put c (scan_literal s)
unfolding scan_literal
scan_literal-plain c [] h k = absurd (k refl)
scan_literal-plain c (d ∷ s) h k = ground arith

scan_literal-doubled : (s : Text) → scan_literal (quote ∷ quote ∷ s) ≡ put quote (scan_literal s)
unfolding scan_literal
scan_literal-doubled s = refl

append-ne-nil : (s rest : Text) (c : ℕ) → s ++ c ∷ rest ≢ []
append-ne-nil [] rest c = ground arith
append-ne-nil (d ∷ s) rest c = ground arith

-- The scanner reads an escaped value back whole, and stops at the quote that the caller puts
-- behind it: no value ends the literal early.
pub scan_literal-literal_escape :
    (s rest : Text)
    → first? rest ≢ some quote
    → scan_literal (literal_escape s ++ quote ∷ rest) ≡ some (s, rest)
unfolding literal_escape replace_all
scan_literal-literal_escape [] rest h = scan_literal-quote rest h
scan_literal-literal_escape (c ∷ s) rest h = ground (
  arith,
  scan_literal-literal_escape s rest h,
  scan_literal-doubled (replace_all quote (quote ∷ quote ∷ []) s ++ quote ∷ rest),
  scan_literal-plain c (replace_all quote (quote ∷ quote ∷ []) s ++ quote ∷ rest),
  append-ne-nil (replace_all quote (quote ∷ quote ∷ []) s) rest quote,
)
