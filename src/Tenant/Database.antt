-- ===== src/Tenant/Database.antt =====
-- internal/tenant/provision.go, rotate.go and sync.go: the steps in Postgres. `%s` of a quoted
-- identifier and `'%s'` of an escaped literal are written out as they are put together.
use cnpg_portal.Prelude.{is_empty, [], ◌∷◌, Text, codes, ◌++◌, not, Bool, if◌then◌else◌}
use cnpg_portal.Quoting.{quote_ident, literal_escape, quote}
use cnpg_portal.World.{World, Exec, Conn}
use cnpg_portal.World.Chain.{◌>>◌, pure, lift, ◌>>=◌}
use cnpg_portal.Postgres.{run_query, run_sql}

-- '%s'
abbrev pub literal : Text → Text
literal s = quote ∷ (literal_escape s ++ quote ∷ [])

unfoldable pub create_role_sql : Text → Text → Text
create_role_sql qrole password =
    codes "DO $$ BEGIN\n  CREATE ROLE "
    ++ (qrole
        ++ (codes " LOGIN PASSWORD "
            ++ (literal password
                ++ (codes ";\nEXCEPTION WHEN duplicate_object THEN\n  ALTER ROLE "
                    ++ (qrole
                        ++ (codes " WITH LOGIN PASSWORD "
                            ++ (literal password ++ codes ";\nEND $$;\n")))))))

unfoldable pub alter_role_sql : Text → Text → Text
alter_role_sql qrole password =
    codes "ALTER ROLE "
    ++ (qrole ++ (codes " WITH LOGIN PASSWORD " ++ (literal password ++ codes ";")))

unfoldable pub role_sql : Text → Text
role_sql role = codes "SELECT 1 FROM pg_roles WHERE rolname = " ++ (literal role ++ codes ";")

unfoldable pub database_sql : Text → Text
database_sql db = codes "SELECT 1 FROM pg_database WHERE datname = " ++ (literal db ++ codes ";")

unfoldable pub create_database_sql : Text → Text
create_database_sql qdb =
    codes "CREATE DATABASE " ++ (qdb ++ (codes " OWNER " ++ (qdb ++ codes ";")))

unfoldable pub own_database_sql : Text → Text
own_database_sql qdb =
    codes "ALTER DATABASE " ++ (qdb ++ (codes " OWNER TO " ++ (qdb ++ codes ";")))

unfoldable pub connect_sql : Text → Text
connect_sql q = codes "GRANT CONNECT ON DATABASE " ++ (q ++ (codes " TO " ++ (q ++ codes ";")))

unfoldable pub grants_sql : Text → Text
grants_sql q =
    codes "GRANT ALL ON SCHEMA public TO "
    ++ (q
        ++ (codes ";\nALTER DEFAULT PRIVILEGES IN SCHEMA public GRANT ALL ON TABLES TO "
            ++ (q
                ++ (codes ";\nALTER DEFAULT PRIVILEGES IN SCHEMA public GRANT ALL ON SEQUENCES TO "
                    ++ (q ++ codes ";\n")))))

unfoldable pub terminate_sql : Text → Text
terminate_sql db =
    codes "SELECT pg_terminate_backend(pid) FROM pg_stat_activity WHERE datname = "
    ++ (literal db ++ codes " AND pid <> pg_backend_pid();")

unfoldable pub drop_database_sql : Text → Text
drop_database_sql q = codes "DROP DATABASE IF EXISTS " ++ (q ++ codes ";")

unfoldable pub force_drop_sql : Text → Text
force_drop_sql q = codes "DROP DATABASE IF EXISTS " ++ (q ++ codes " WITH (FORCE);")

unfoldable pub drop_role_sql : Text → Text
drop_role_sql q = codes "DROP ROLE IF EXISTS " ++ (q ++ codes ";")

abbrev pub forget : Text → Exec (Unit {0})
forget _ = pure tt

module _ (w : World) (c : Conn) where
  -- `_, err = conn.RunSQL(...)`
  unfoldable pub run_statement : Text → Text → Exec (Unit {0})
  unfolding run_sql
  run_statement db script = run_sql w c db script >>= forget

  -- len(rows) > 0
  unfoldable pub has_rows : Text → Exec Bool
  unfolding run_query
  has_rows query = do rows ← run_query w c [] query; pure (not (is_empty rows))

  unfoldable pub role_exists : Text → Exec Bool
  unfolding has_rows
  role_exists role = has_rows (role_sql role)

  unfoldable pub database_exists : Text → Exec Bool
  unfolding has_rows
  database_exists name = has_rows (database_sql name)

  unfoldable pub ensure_role : Text → Text → Exec (Unit {0})
  unfolding run_statement
  ensure_role role password = do
    qrole ← lift (quote_ident role)
    run_statement [] (create_role_sql qrole password)

  unfoldable pub alter_role_password : Text → Text → Exec (Unit {0})
  unfolding run_statement
  alter_role_password role password = do
    qrole ← lift (quote_ident role)
    run_statement [] (alter_role_sql qrole password)

  unfoldable pub ensure_database : Text → Exec (Unit {0})
  unfolding has_rows run_statement
  ensure_database db = do
    found ← has_rows (database_sql db)
    qdb ← lift (quote_ident db)
    run_statement [] (if found then own_database_sql qdb else create_database_sql qdb)

  unfoldable pub ensure_grants : Text → Exec (Unit {0})
  unfolding run_statement
  ensure_grants app = do
    q ← lift (quote_ident app)
    run_statement [] (connect_sql q)
    run_statement app (grants_sql q)
