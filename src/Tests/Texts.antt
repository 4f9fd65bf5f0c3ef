-- ===== src/Tests/Texts.antt =====
-- Names, quoting and URLs.
use cnpg_portal.Prelude.{◌≤◌, length, ◌⊎◌, Text, codes, ◌≡◌, refl, some, [], ◌∷◌, ◌++◌, arith, true}
use cnpg_portal.Quoting.{quote, literal_escape, sh_quote, libpq_escape}
use cnpg_portal.Quoting.Literal.{scan_literal, scan_literal-literal_escape}
use cnpg_portal.Quoting.Shell.{scan_word, plain, scan_word-sh_quote}
use cnpg_portal.Quoting.Conninfo.{read_value, read_value-libpq_escape, libpq_escape_cuts}
use cnpg_portal.Names.{dns1123_basename, ident_safe, database_name_safe}
use cnpg_portal.Names.Labels.{IsLabelText, dns1123_basename-IsLabelText}
use cnpg_portal.Tenant.Clone.{default_branch_destination}
use cnpg_portal.Tenant.BranchNames.{default_branch_destination-ident_safe}
use cnpg_portal.Strings.{first?, contains_any}

abbrev tricky : Text
tricky = codes "it's \\ here"

scan_literal-literal_escape_example :
    scan_literal (literal_escape tricky ++ quote ∷ codes ";") ≡ some (tricky, codes ";")
unfolding first?
scan_literal-literal_escape_example =
    scan_literal-literal_escape tricky (codes ";") (λ e. ground arith)

scan_word-sh_quote_example :
    scan_word plain (sh_quote tricky ++ b' ' ∷ codes "psql") ≡ some (tricky, b' ' ∷ codes "psql")
scan_word-sh_quote_example = scan_word-sh_quote tricky (codes "psql")

read_value-libpq_escape_example : read_value (libpq_escape tricky) ≡ some (tricky, [])
read_value-libpq_escape_example = read_value-libpq_escape tricky refl

libpq_escape_cuts_example :
    read_value (libpq_escape (codes "ab" ++ b'\t' ∷ codes "cd"))
    ≡ some (codes "ab", b'\t' ∷ codes "cd")
unfolding contains_any
libpq_escape_cuts_example = libpq_escape_cuts (codes "b") (codes "cd") b'a' b'\t' refl refl refl

dns1123_basename-IsLabelText_example :
    IsLabelText (dns1123_basename (codes "_Shop__A_"))
    × ((dns1123_basename (codes "_Shop__A_") ≡ codes "app")
        ⊎ (length (dns1123_basename (codes "_Shop__A_")) ≤ length (codes "_Shop__A_")))
dns1123_basename-IsLabelText_example = dns1123_basename-IsLabelText (codes "_Shop__A_")

default_branch_destination-ident_safe_example :
    ident_safe (default_branch_destination (codes "my-shop")) ≡ true
unfolding database_name_safe
default_branch_destination-ident_safe_example =
    default_branch_destination-ident_safe (codes "my-shop") refl
