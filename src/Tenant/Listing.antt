-- ===== src/Tenant/Listing.antt =====
-- internal/tenant/list.go, status.go, credentials.go and connections.go: the verbs that read, and
-- the termination of a connection. `show_time` is the library's RFC 3339 form of a time.
use cnpg_portal.Prelude.{
  ◌==◌, eq_text, is_empty, [], ◌++◌, ◌∷◌, suc, ℕ, Text, codes, Bool, false, ◌||◌, if◌then◌else◌,
  List, Option, none, some, ℤ, pos,
}
use cnpg_portal.Result.{
  is_missing, Result, ok, err, message, message_about, wrapped, err_tenant_not_found,
  err_credentials_not_found,
}
use cnpg_portal.World.{get_secret, ask_secret, Backup, World, Exec, Secret}
use cnpg_portal.World.Chain.{outcome, require, ◌>>◌, lift, ◌>>=◌}
use cnpg_portal.Workspace.{Workspace}
use cnpg_portal.Connstr.{Inputs}
use cnpg_portal.Tenant.{service_host, pure, secret_name, pg_dep, k8s_secret_name, Deps, Tenant}
use cnpg_portal.Strings.{trim_space, to_lower}
use cnpg_portal.Cnpg.{latest_completed, sorted_backups}
use cnpg_portal.Tenant.Database.{run_statement, literal}
use cnpg_portal.Strings.Decimal.{parse_int, itoa}
use cnpg_portal.Tenant.Secrets.{data_value}
use cnpg_portal.Postgres.{run_query}
use cnpg_portal.Names.{ident_safe, database_name_safe}
use cnpg_portal.Tenant.Provision.{bad_name}

abbrev pub list_sql : Text
list_sql =
    codes
      "SELECT\n  d.datname,\n  pg_catalog.pg_get_userbyid(d.datdba) AS owner,\n  pg_database_size(d.datname) AS size_bytes,\n  COALESCE(s.numbackends, 0) AS conns\nFROM pg_database d\nLEFT JOIN pg_stat_database s ON s.datname = d.datname\nWHERE NOT d.datistemplate AND d.datname <> 'postgres'\nORDER BY d.datname"

abbrev pub status_sql : Text → Text
status_sql app =
    codes
      "SELECT\n  d.datname,\n  pg_catalog.pg_get_userbyid(d.datdba) AS owner,\n  pg_database_size(d.datname) AS size_bytes,\n  COALESCE(s.numbackends, 0) AS conns,\n  COALESCE(r.rolcanlogin, false) AS can_login,\n  COALESCE(r.rolcreatedb, false) AS create_db,\n  COALESCE(r.rolinherit, false) AS inherit,\n  COALESCE(r.rolconnlimit, -1) AS conn_limit\nFROM pg_database d\nLEFT JOIN pg_stat_database s ON s.datname = d.datname\nLEFT JOIN pg_roles r ON r.oid = d.datdba\nWHERE d.datname = "
    ++ literal app

abbrev pub connections_sql : Text → Text
connections_sql app =
    codes
      "SELECT\n  pid,\n  usename,\n  COALESCE(application_name, ''),\n  COALESCE(client_addr::text, ''),\n  COALESCE(state, ''),\n  (now() - state_change)::text AS age,\n  regexp_replace(COALESCE(query, ''), E'[\\n\\t\\r]+', ' ', 'g') AS query\nFROM pg_stat_activity\nWHERE datname = "
    ++ (literal app ++ codes "\nORDER BY now() - state_change DESC")

unfoldable pub terminate_pid_sql : Text → ℕ → Text
terminate_pid_sql app pid =
    codes "SELECT pg_terminate_backend("
    ++ (itoa pid
        ++ (codes ") FROM pg_stat_activity WHERE datname = "
            ++ (literal app ++ (codes " AND pid = " ++ (itoa pid ++ codes ";")))))

unfoldable pub parse_list_row : List Text → Option Tenant
parse_list_row (name ∷ owner ∷ size ∷ conns ∷ more) =
    if is_empty (trim_space name)
    then none
    else some (record {
      name = trim_space name;
      role = trim_space owner;
      database = trim_space name;
      secret_name = k8s_secret_name (trim_space name);
      database_url = [];
      owner = trim_space owner;
      size_bytes = parse_int (trim_space size);
      connections = parse_int (trim_space conns);
      last_backup = [];
      login = false;
      create_db = false;
      inherit = false;
      connection_limit = pos 0;
    })
parse_list_row _ = none

-- the loop over the rows
unfoldable pub listed : Text → List (List Text) → List Tenant
unfolding parse_list_row
listed last [] = []
listed last (r ∷ rows) = elim (parse_list_row r) [
  | none ↦ listed last rows
  | some t ↦ record t { last_backup = last } ∷ listed last rows
]

unfoldable pub parse_bool : Text → Bool
parse_bool s =
    let v = to_lower (trim_space s) in
    eq_text v (codes "t")
    || eq_text v (codes "true")
    || eq_text v (codes "1")
    || eq_text v (codes "yes")

-- K8sSecretName, or the workspace's name for it
unfoldable pub shown_secret_name : Option Workspace → Text → Text
shown_secret_name none name = k8s_secret_name name
shown_secret_name (some ws) name = secret_name ws name

unfoldable pub status_row : Option Workspace → Text → List (List Text) → Result Tenant
unfolding parse_bool shown_secret_name
status_row ws last [] = err err_tenant_not_found
status_row ws last
      ((name ∷ owner ∷ size ∷ conns ∷ login ∷ create ∷ inherits ∷ limit ∷ more) ∷ rows) =
    ok (record {
      name = trim_space name;
      role = trim_space owner;
      database = trim_space name;
      secret_name = shown_secret_name ws (trim_space name);
      database_url = [];
      owner = trim_space owner;
      size_bytes = parse_int (trim_space size);
      connections = parse_int (trim_space conns);
      last_backup = last;
      login = parse_bool login;
      create_db = parse_bool create;
      inherit = parse_bool inherits;
      connection_limit = parse_int (trim_space limit);
    })
status_row ws last (r ∷ rows) = err (message (codes "unexpected row width %d"))

pub record Connection : Type 0 where
  pub pid : ℤ
  pub user : Text
  pub application_name : Text
  pub client_addr : Text
  pub state : Text
  pub age : Text
  pub query : Text

unfoldable pub parse_connections : List (List Text) → List Connection
parse_connections [] = []
parse_connections ((pid ∷ user ∷ name ∷ addr ∷ state ∷ age ∷ query ∷ more) ∷ rows) =
    record {
      pid = parse_int (trim_space pid);
      user = trim_space user;
      application_name = trim_space name;
      client_addr = trim_space addr;
      state = trim_space state;
      age = trim_space age;
      query = trim_space query;
    }
    ∷ parse_connections rows
parse_connections (r ∷ rows) = parse_connections rows

-- what ReadCredentials makes of the answer to the Get
unfoldable pub credentials_of : Workspace → Text → Result Secret → Result Inputs
credentials_of ws app (err e) =
    if is_missing e then err err_credentials_not_found else err (wrapped (codes "get secret") e)
credentials_of ws app (ok s) =
    if is_empty (data_value s.password)
    then err (message (codes "secret has no `password` key"))
    else ok (record {
      host = service_host ws.service_name ws.namespace;
      port = 5432;
      database = app;
      user = app;
      password = data_value s.password;
    })

-- d.K8s == nil || d.Workspace == nil
abbrev pub all_but_pg : Deps → Option Workspace
all_but_pg d = if d.has_k8s then d.workspace else none

unfoldable pub credentials_workspace : Deps → Result Workspace
credentials_workspace d =
    if d.has_k8s
    then elim d.workspace [
      | none ↦ err (message (codes "ReadCredentials: Workspace dep is required"))
      | some ws ↦ ok ws
    ]
    else err (message (codes "ReadCredentials: K8s dep is required"))

unfoldable pub valid_pid : ℤ → Result ℕ
valid_pid (pos (suc n)) = ok (suc n)
valid_pid _ = err (message (codes "invalid pid %d"))

-- the end of the last completed backup, or "" where there is none or it has no time
unfoldable pub backup_time : (ℕ → Text) → Result (List Backup) → Text
backup_time show_time (err e) = []
backup_time show_time (ok bs) = elim (latest_completed bs) [
  | none ↦ []
  | some b ↦ if b.stopped_at == 0 then [] else show_time b.stopped_at
]

module _ (w : World) where
  unfoldable pub last_cluster_backup : (ℕ → Text) → Deps → Exec Text
  unfolding sorted_backups latest_completed
  last_cluster_backup show_time d = elim (all_but_pg d) [
    | none ↦ pure []
    | some ws ↦ outcome (sorted_backups w ws.namespace ws.cluster_name) >>= λ r.
        pure (backup_time show_time r)
  ]

  unfoldable pub list : (ℕ → Text) → Deps → Exec (List Tenant)
  unfolding listed
  list show_time d = do
    c ← lift (pg_dep (codes "List: PG dep is required") d)
    rows ← run_query w c [] list_sql
    last ← last_cluster_backup show_time d
    pure (listed last rows)

  unfoldable pub status : (ℕ → Text) → Deps → Text → Exec Tenant
  unfolding status_row
  status show_time d app = do
    c ← lift (pg_dep (codes "Status: PG dep is required") d)
    require (database_name_safe app) (message_about (codes "invalid database name %q") app)
    rows ← run_query w c [] (status_sql app)
    lift (status_row d.workspace [] rows) >>= λ t.
        last_cluster_backup show_time d >>= λ last. pure (record t { last_backup = last })

  unfoldable pub connections : Deps → Text → Exec (List Connection)
  unfolding parse_connections
  connections d app = do
    c ← lift (pg_dep (codes "Connections: PG dep is required") d)
    require (database_name_safe app) (message_about (codes "invalid database name %q") app)
    rows ← run_query w c [] (connections_sql app)
    pure (parse_connections rows)

  unfoldable pub terminate_connection : Deps → Text → ℤ → Exec (Unit {0})
  terminate_connection d app pid = do
    c ← lift (pg_dep (codes "TerminateConnection: PG dep is required") d)
    require (database_name_safe app) (message_about (codes "invalid database name %q") app)
    n ← lift (valid_pid pid)
    run_statement w c [] (terminate_pid_sql app n)

  unfoldable pub read_credentials : Deps → Text → Exec Inputs
  unfolding credentials_of
  read_credentials d app = do
    require (ident_safe app) (bad_name app)
    ws ← lift (credentials_workspace d)
    answer ← outcome (ask_secret w (get_secret ws.namespace (secret_name ws app)))
    lift (credentials_of ws app answer)
