-- ===== src/Quoting.antt =====
-- The escapers: `LiteralEscape` and `QuoteIdent` of internal/pg/sql.go, `shQuote` and `libpqEscape`
-- of internal/connstr/connstr.go. What reads each form again is described in the children.
pub mod Literal
pub mod Shell
pub mod Conninfo
use cnpg_portal.Prelude.{ℕ, Text, codes, [], ◌∷◌, ◌++◌, Bool, ◌||◌, ◌==◌, if◌then◌else◌}
use cnpg_portal.Strings.{replace_all, contains_any}
use cnpg_portal.Names.{ident_safe}
use cnpg_portal.Result.{Result, ok, err, message_about}

abbrev pub quote : ℕ
quote = 39

abbrev pub backslash : ℕ
backslash = 92

-- strings.ReplaceAll(s, "'", "''")
unfoldable pub literal_escape : Text → Text
literal_escape s = replace_all quote (quote ∷ quote ∷ []) s

unfoldable pub quote_ident : Text → Result Text
quote_ident s =
    if ident_safe s
    then ok (codes "\"" ++ (s ++ codes "\""))
    else err (message_about (codes "unsafe identifier: %q (must match [a-z][a-z0-9_]{0,62})") s)

-- strings.ReplaceAll(s, "'", `'\''`) between single quotes
unfoldable pub sh_quote : Text → Text
sh_quote s = quote ∷ (replace_all quote (quote ∷ backslash ∷ quote ∷ quote ∷ []) s ++ quote ∷ [])

abbrev pub needs_quotes : ℕ → Bool
needs_quotes c = c == b' ' || c == quote || c == backslash

-- strings.NewReplacer(`\`, `\\`, `'`, `\'`)
unfoldable pub escape_both : Text → Text
escape_both [] = []
escape_both (c ∷ s) =
    if c == backslash || c == quote then backslash ∷ c ∷ escape_both s else c ∷ escape_both s

unfoldable pub libpq_escape : Text → Text
unfolding escape_both
libpq_escape pw =
    if contains_any pw needs_quotes then quote ∷ (escape_both pw ++ quote ∷ []) else pw
