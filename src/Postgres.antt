-- ===== src/Postgres.antt =====
-- internal/pg/sql.go, internal/pg/import.go and internal/pg/stream.go: SQL and dumps through
-- commands in the primary's pod. A stream is the text that it carries; `%q` writes a safe name
-- between double quotes. The messages of a failed command are the outside's.
pub mod Footprint
use cnpg_portal.Prelude.{
  ℕ, Text, codes, eq_text, List, [], ◌∷◌, ◌++◌, map, take, Bool, true, false, not, ◌&&◌, Option,
  none, some, if◌then◌else◌, is_empty, keep, ◌==◌,
}
use cnpg_portal.Strings.{split, trim_right, has_prefix}
use cnpg_portal.Names.{ident_safe, database_name_safe}
use cnpg_portal.Quoting.{literal_escape}
use cnpg_portal.Result.{Error, Result, ok, err, message, wrapped}
use cnpg_portal.World.{World, Conn, Exec, Call, exec, exec_pipe, ask_text, ask_done}
use cnpg_portal.World.Chain.{◌>>=◌, ◌>>◌, pure, raise, lift, require, annotate, rename_error}

abbrev pub superuser_db : Text
superuser_db = codes "postgres"

abbrev pub or_superuser : Text → Text
or_superuser [] = superuser_db
or_superuser (c ∷ s) = c ∷ s

unfoldable pub sql_args : Text → List Text
sql_args db =
    codes "psql"
    ∷ codes "-U"
    ∷ codes "postgres"
    ∷ codes "-d"
    ∷ db
    ∷ codes "-At"
    ∷ codes "--set=ON_ERROR_STOP=1"
    ∷ []

unfoldable pub query_args : Text → Text → List Text
query_args db query =
    codes "psql"
    ∷ codes "-U"
    ∷ codes "postgres"
    ∷ codes "-d"
    ∷ db
    ∷ codes "-At"
    ∷ codes "-F"
    ∷ codes "\t"
    ∷ codes "--set=ON_ERROR_STOP=1"
    ∷ codes "-c"
    ∷ query
    ∷ []

abbrev pub is_newline : ℕ → Bool
is_newline c = c == 10

abbrev pub is_row : Text → Bool
is_row r = not (is_empty r)

-- rows at line feeds, columns at tabs; empty lines are dropped
unfoldable pub parse_rows : Text → List (List Text)
parse_rows out = map (split 9) (keep is_row (split 10 (trim_right is_newline out)))

-- an upload's first five bytes are the magic header of pg_dump -Fc
unfoldable pub detect_dump_format : Text → Text
detect_dump_format dump =
    if eq_text (take 5 dump) (codes "PGDMP") then codes "custom" else codes "sql"

abbrev pub dump_args : Text → List Text
dump_args db = codes "pg_dump" ∷ codes "-U" ∷ codes "postgres" ∷ codes "-Fc" ∷ codes "-d" ∷ db ∷ []

abbrev pub restore_args : Text → List Text
restore_args db =
    codes "pg_restore"
    ∷ codes "-U"
    ∷ codes "postgres"
    ∷ codes "--no-owner"
    ∷ codes "--no-privileges"
    ∷ codes "--role"
    ∷ db
    ∷ codes "-d"
    ∷ db
    ∷ []

abbrev pub quoted : Text → Text
quoted s = codes "\"" ++ (s ++ codes "\"")

unfoldable pub dump_restore_script : Text → Text → Text
dump_restore_script src dst =
    codes "pg_dump -U postgres -Fc -d "
    ++ (quoted src
        ++ (codes " | pg_restore -U postgres --no-owner --no-privileges --role="
            ++ (quoted dst ++ (codes " -d " ++ quoted dst))))

abbrev forget : Text → Exec (Unit {0})
forget _ = pure tt

-- the error of the dump comes before that of the restore
abbrev pub first_error : Result (Unit {0}) → Result (Unit {0}) → Result (Unit {0})
first_error (err e) r = err (wrapped (codes "pg_dump on recovery") e)
first_error (ok d) (err e) = err (wrapped (codes "pg_restore on primary") e)
first_error (ok d) (ok r) = ok tt

module _ (w : World) where
  unfoldable pub exec_in : Conn → List Text → Option Text → Exec Text
  exec_in c command stdin = annotate (wrapped (codes "psql")) (ask_text w (exec c command stdin))

  unfoldable pub run_sql : Conn → Text → Text → Exec Text
  unfolding exec_in sql_args
  run_sql c db script = exec_in c (sql_args (or_superuser db)) (some script)

  unfoldable pub run_query : Conn → Text → Text → Exec (List (List Text))
  unfolding exec_in query_args parse_rows
  run_query c db query = do
    out ← exec_in c (query_args (or_superuser db) query) none
    pure (parse_rows out)

  unfoldable pub pg_dump_restore : Conn → Text → Text → Exec (Unit {0})
  unfolding exec_in dump_restore_script
  pg_dump_restore c src dst = do
    require (database_name_safe src && ident_safe dst)
        (message (codes "PgDumpRestore: src must be DatabaseNameSafe and dst must be IdentSafe"))
    exec_in c (codes "bash" ∷ codes "-c" ∷ dump_restore_script src dst ∷ []) none >>= forget

  -- `PgDump`: what it streams out is the result
  unfoldable pub pg_dump : Conn → Text → Exec Text
  pg_dump c db = do
    require (database_name_safe db) (message (codes "PgDump: db must be DatabaseNameSafe"))
    annotate (wrapped (codes "pg_dump")) (ask_text w (exec c (dump_args db) none))

  unfoldable pub restore_custom_from_reader : Conn → Text → Text → Exec (Unit {0})
  restore_custom_from_reader c dst dump = do
    require (ident_safe dst) (message (codes "RestoreCustomFromReader: dstDB must be IdentSafe"))
    annotate (wrapped (codes "pg_restore")) (ask_text w (exec c (restore_args dst) (some dump)))
        >>= forget

  unfoldable pub restore_sql_from_reader : Conn → Text → Text → Exec (Unit {0})
  restore_sql_from_reader c dst dump = do
    require (ident_safe dst) (message (codes "RestoreSQLFromReader: dstDB must be IdentSafe"))
    annotate (wrapped (codes "psql")) (
          ask_text w (
            exec c
              (codes "psql"
                ∷ codes "-U"
                ∷ codes "postgres"
                ∷ codes "-d"
                ∷ dst
                ∷ codes "-v"
                ∷ codes "ON_ERROR_STOP=1"
                ∷ codes "-f"
                ∷ codes "-"
                ∷ [])
              (some dump)))
        >>= forget

  -- Both commands are started, and both are waited for.
  unfoldable pub cross_pod_dump_restore : Conn → Conn → Text → Text → Exec (Unit {0})
  cross_pod_dump_restore src dst src_db dst_db h =
      let c = exec_pipe src (dump_args src_db) dst (restore_args dst_db) in
      if ident_safe src_db && ident_safe dst_db
      then (first_error (w.both h c).0 (w.both h c).1, c ∷ h)
      else (err (message (codes "CrossPodDumpRestore: srcDB/dstDB must be IdentSafe")), h)
