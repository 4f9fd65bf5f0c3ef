-- ===== src/Tenant/Statements.antt =====
-- The password of a tenant where others read it: the SQL that sets it, as the server reads its
-- literals, and the returned connection URL, as a client reads it (internal/tenant/provision.go,
-- rotate.go and tenant.go).
use cnpg_portal.Prelude.{Text, codes, [], ◌∷◌, ◌++◌, some, ◌≡◌, refl, append_assoc, ◌≢◌, arith}
use cnpg_portal.Strings.{first?}
use cnpg_portal.Result.{ok}
use cnpg_portal.Quoting.{quote_ident, quote, literal_escape}
use cnpg_portal.Quoting.Literal.{scan_literal, scan_literal-literal_escape}
use cnpg_portal.Url.Escaped.{bytes_of, decode}
use cnpg_portal.Workspace.{Workspace}
use cnpg_portal.Tenant.{Tenant, tenant_of}
use cnpg_portal.Tenant.Addresses.{build_database_url-decode, url_password, url_user}
use cnpg_portal.Tenant.Database.{alter_role_sql, create_role_sql}

-- an identifier between double quotes
abbrev pub quoted : Text → Text
quoted s = codes "\"" ++ (s ++ codes "\"")

pub quote_ident-quoted : (s q : Text) → quote_ident s ≡ ok q → q ≡ quoted s
unfolding quote_ident
quote_ident-quoted s q e = ground arith

-- The script creates the quoted role with the password, and alters a role that is already there to
-- have the same password.
abbrev pub IsCreateRole : Text → Text → Text → Type 0
IsCreateRole q password script =
    (first second : Text) × (script
      ≡ codes "DO $$ BEGIN\n  CREATE ROLE " ++ (q ++ (codes " LOGIN PASSWORD '" ++ first)))
    × (scan_literal first
        ≡ some (
          password,
          codes ";\nEXCEPTION WHEN duplicate_object THEN\n  ALTER ROLE "
              ++ (q ++ (codes " WITH LOGIN PASSWORD '" ++ second)),
        ))
    × (scan_literal second ≡ some (password, codes ";\nEND $$;\n"))

-- The script gives the quoted role the password.
abbrev pub IsAlterRole : Text → Text → Text → Type 0
IsAlterRole q password script =
    (value : Text) × (script
      ≡ codes "ALTER ROLE " ++ (q ++ (codes " WITH LOGIN PASSWORD '" ++ value)))
    × (scan_literal value ≡ some (password, codes ";"))

-- The tenant is named after the app throughout, and its URL carries the role and the password.
abbrev pub Carries : Text → Text → Tenant → Type 0
Carries app password t =
    (t.name ≡ app)
    × (t.role ≡ app)
    × (t.database ≡ app)
    × (decode (url_user t.database_url) ≡ some (bytes_of app))
    × (decode (url_password t.database_url) ≡ some (bytes_of password))

-- the text behind the opening quote of a literal
abbrev opened : Text → Text → Text
opened s rest = literal_escape s ++ quote ∷ rest

semicolon : (s : Text) → first? (b';' ∷ s) ≢ some quote
unfolding first?
semicolon s = ground arith

pub create_role_sql-IsCreateRole :
    (q password : Text) → IsCreateRole q password (create_role_sql q password)
unfolding create_role_sql
create_role_sql-IsCreateRole q password =
    let end = codes ";\nEND $$;\n" in
    let second = opened password end in
    let middle =
      codes ";\nEXCEPTION WHEN duplicate_object THEN\n  ALTER ROLE "
      ++ (q ++ (codes " WITH LOGIN PASSWORD '" ++ second)) in
    (
      opened password middle,
      second,
      rw (append_assoc (literal_escape password) (quote ∷ []) end)
          (rw (append_assoc (literal_escape password) (quote ∷ []) middle) refl),
      scan_literal-literal_escape password middle (semicolon _),
      scan_literal-literal_escape password end (semicolon _),
    )

pub alter_role_sql-IsAlterRole :
    (q password : Text) → IsAlterRole q password (alter_role_sql q password)
unfolding alter_role_sql
alter_role_sql-IsAlterRole q password = (
  opened password (codes ";"),
  rw (append_assoc (literal_escape password) (quote ∷ []) (codes ";")) refl,
  scan_literal-literal_escape password (codes ";") (semicolon _),
)

pub tenant_of-Carries :
    (ws : Workspace) (app password : Text) → Carries app password (tenant_of ws app password)
unfolding tenant_of
tenant_of-Carries ws app password =
    let (user, secret) = build_database_url-decode ws.service_name app password ws.namespace app in
    (refl, refl, refl, user, secret)
