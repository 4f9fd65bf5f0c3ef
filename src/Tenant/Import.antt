-- ===== src/Tenant/Import.antt =====
-- internal/tenant/import.go: a tenant from a dump, and from another Postgres. `url.Parse` is the
-- parameter `Urls`.
use cnpg_portal.Prelude.{eq_text, is_empty, Text, codes, Bool, ◌||◌, not, if◌then◌else◌}
use cnpg_portal.Result.{Result, ok, err, message, message_about, wrapped}
use cnpg_portal.World.{remote_wait, remote_kill, ask_done, remote_dump, World, Exec, Conn}
use cnpg_portal.World.Chain.{lift, require, outcome, ◌>>◌, ◌>>=◌}
use cnpg_portal.Sops.{Rules}
use cnpg_portal.ClusterYaml.Roles.{Yaml}
use cnpg_portal.Tenant.{all_deps, ask_text, pure, annotate, Deps, Tenant}
use cnpg_portal.Strings.{has_suffix, trim_space, to_lower}
use cnpg_portal.Postgres.{restore_sql_from_reader, restore_custom_from_reader, detect_dump_format}
use cnpg_portal.Tenant.Database.{ensure_grants}
use cnpg_portal.Names.{ident_safe}
use cnpg_portal.Tenant.Provision.{provision, bad_name}

-- of a parsed URL: the scheme, the host with its port, and the host name
pub record ParsedUrl : Type 0 where
  pub scheme : Text
  pub host : Text
  pub hostname : Text

unfoldable pub is_in_cluster_host : Text → Bool
is_in_cluster_host host =
    let h = to_lower (trim_space host) in
    has_suffix h (codes ".svc.cluster.local")
    || has_suffix h (codes ".svc")
    || has_suffix h (codes ".cluster.local")

unfoldable pub validate_postgres_url : Result ParsedUrl → Result (Unit {0})
validate_postgres_url (err e) = err (wrapped (codes "parse DATABASE_URL") e)
validate_postgres_url (ok u) =
    if not (eq_text u.scheme (codes "postgres") || eq_text u.scheme (codes "postgresql"))
    then err (message (codes "DATABASE_URL scheme must be postgres or postgresql"))
    else if is_empty u.host || is_empty u.hostname
    then err (message (codes "DATABASE_URL must include a host"))
    else ok tt

unfoldable pub host_for_log : Result ParsedUrl → Text
host_for_log (err e) = codes "(unknown)"
host_for_log (ok u) = if is_empty u.host then codes "(unknown)" else u.hostname

-- the switch on the two errors, of the restore and of the dump
unfoldable pub import_errors : Result (Unit {0}) → Result (Unit {0}) → Result (Unit {0})
import_errors (err r) (err e) = err (wrapped (codes "pg_dump from; pg_restore also failed") e)
import_errors (ok r) (err e) = err (wrapped (codes "pg_dump from") e)
import_errors (err r) (ok e) = err (wrapped (codes "pg_restore") r)
import_errors (ok r) (ok e) = ok tt

module _ (w : World) (rules : Rules) (yaml : Yaml) where
  unfoldable pub load_dump : Conn → Text → Text → Exec (Unit {0})
  unfolding detect_dump_format restore_custom_from_reader restore_sql_from_reader
  load_dump c app dump =
      if eq_text (detect_dump_format dump) (codes "custom")
      then restore_custom_from_reader w c app dump
      else restore_sql_from_reader w c app dump

  unfoldable pub dump_steps : Conn → Text → Text → Exec (Unit {0})
  unfolding load_dump
  dump_steps c app dump = do
    annotate (wrapped (codes "load dump")) (load_dump c app dump)
    annotate (wrapped (codes "ensure grants after import")) (ensure_grants w c app)

  -- The second part is the error that is returned together with the tenant.
  unfoldable pub import_from_dump : Deps → Text → Text → Exec (Tenant × Result (Unit {0}))
  unfolding dump_steps
  import_from_dump d app dump = do
    require (ident_safe app) (bad_name app)
    deps ← lift (all_deps (codes "ImportFromDump: K8s, PG, and Workspace deps are required") d)
    t ← annotate (wrapped (codes "provision")) (provision w rules yaml d app)
    loaded ← outcome (dump_steps deps.0 app dump)
    pure (t, loaded)

  -- if restoreErr != nil { _ = cmd.Process.Kill() }
  unfoldable pub kill_on_error : Result (Unit {0}) → Exec (Unit {0})
  kill_on_error (ok _) = pure tt
  kill_on_error (err e) = outcome (ask_done w remote_kill) >>= λ _. pure tt

  unfoldable pub remote_steps : Conn → Text → Text → Exec (Unit {0})
  unfolding kill_on_error
  remote_steps c app url = do
    dump ← annotate (wrapped (codes "pg_dump start")) (ask_text w (remote_dump url))
    restored ← outcome (restore_custom_from_reader w c app dump)
    kill_on_error restored
    ended ← outcome (ask_done w remote_wait)
    lift (import_errors restored ended)
    annotate (wrapped (codes "ensure grants after import")) (ensure_grants w c app)

  unfoldable pub import_from_remote_url :
      (Text → Result ParsedUrl) → Deps → Text → Text → Exec (Tenant × Result (Unit {0}))
  unfolding remote_steps
  import_from_remote_url parse_url d app raw = do
    require (ident_safe app) (bad_name app)
    let url = trim_space raw
    require (not (is_empty url)) (message (codes "empty DATABASE_URL"))
    lift (validate_postgres_url (parse_url url))
    deps ← lift (all_deps (codes "ImportFromRemoteURL: K8s, PG, and Workspace deps are required") d)
    require (not (is_in_cluster_host (host_for_log (parse_url url)))) (
        message_about (codes "DATABASE_URL host %q is in-cluster DNS only")
          (host_for_log (parse_url url)))
    t ← annotate (wrapped (codes "provision")) (provision w rules yaml d app)
    loaded ← outcome (remote_steps deps.0 app url)
    pure (t, loaded)
