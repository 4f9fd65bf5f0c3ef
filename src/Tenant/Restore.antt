-- ===== src/Tenant/Restore.antt =====
-- internal/tenant/restore.go: RestoreFromBackup. `ok_name` is the Kubernetes library's check of a
-- DNS subdomain (`cnpg.BackupObjectNameOK` only calls it); `pod_ticks` and `probe_ticks` are the
-- ticks before the contexts of the two polls end.
use cnpg_portal.Prelude.{
  [], ◌&&◌, is_empty, eq_text, ◌∷◌, not, ℕ, zero, suc, Text, codes, Bool, List, Option, none, some,
  if◌then◌else◌,
}
use cnpg_portal.Result.{Result, ok, err, err_context, message_about, wrapped}
use cnpg_portal.World.{clock, ask_number, World, Exec, Conn, Backup}
use cnpg_portal.World.Chain.{lift, raise, require, outcome, ◌>>◌, ◌>>=◌}
use cnpg_portal.Workspace.{Workspace}
use cnpg_portal.Tenant.{all_deps, annotate, pure, Deps}
use cnpg_portal.Postgres.{cross_pod_dump_restore, run_query}
use cnpg_portal.Tenant.Database.{
  drop_database_sql, terminate_sql, ensure_grants, ensure_database, run_statement,
}
use cnpg_portal.Cnpg.{
  recovery_cluster_name, create_recovery_cluster, phase_completed, get_base_cluster, sorted_backups,
  delete_recovery_cluster, wait_primary_pod,
}
use cnpg_portal.Sops.{or_cleanup}
use cnpg_portal.Names.{ident_safe}
use cnpg_portal.Tenant.Provision.{bad_name}
use cnpg_portal.Quoting.{quote_ident}
use cnpg_portal.Strings.{trim_space}

unfoldable pub find_backup : Text → List Backup → Option Backup
find_backup name [] = none
find_backup name (b ∷ bs) =
    let later = find_backup name bs in if eq_text b.name name then some b else later

abbrev pub refuse : Text → Text → Result Backup
refuse what name = err (message_about what name)

-- the four checks of the chosen backup
unfoldable pub check_backup : Text → Text → Option Backup → Result Backup
check_backup cluster name none = refuse (codes "backup %q not found for cluster %s") name
check_backup cluster name (some b) =
    if not (eq_text b.phase phase_completed)
    then refuse (codes "backup %q is not completed (phase=%s)") name
    else if is_empty b.backup_id
    then refuse (codes "backup %q has no status.backupId; cannot restore") name
    else if not (is_empty b.cluster) && not (eq_text b.cluster cluster)
    then refuse (codes "backup %q targets cluster %q, expected %s") name
    else ok b

unfoldable pub after_probe : Result (List (List Text)) → Exec (Unit {0}) → Exec (Unit {0})
after_probe (ok rows) next = pure tt
after_probe (err e) next = next

module _ (w : World) where
  -- until Postgres answers in the recovery cluster
  unfoldable pub wait_database : ℕ → Conn → Text → Exec (Unit {0})
  unfolding run_query after_probe
  wait_database zero c app = do
    probed ← outcome (run_query w c app (codes "SELECT 1"))
    after_probe probed
        (raise (wrapped (codes "recovery cluster database not reachable") err_context))
  wait_database (suc ticks) c app = do
    probed ← outcome (run_query w c app (codes "SELECT 1"))
    after_probe probed (wait_database ticks c app)

  -- the tenant's database is replaced by that of the recovery cluster
  unfoldable pub replace_database : Conn → Conn → Text → Exec (Unit {0})
  unfolding run_statement ensure_database cross_pod_dump_restore ensure_grants
  replace_database recovery c app = do
    q ← lift (quote_ident app)
    outcome (run_statement w c [] (terminate_sql app)) >>= λ _.
        annotate (wrapped (codes "drop database on primary"))
          (run_statement w c [] (drop_database_sql q))
    annotate (wrapped (codes "create empty database on primary")) (ensure_database w c app)
    annotate (wrapped (codes "logical restore")) (cross_pod_dump_restore w recovery c app app)
    annotate (wrapped (codes "ensure grants after restore")) (ensure_grants w c app)

  -- what is done while the recovery cluster exists
  unfoldable pub use_recovery : ℕ → ℕ → Conn → Workspace → Text → Text → Exec (Unit {0})
  unfolding wait_primary_pod wait_database replace_database
  use_recovery pod_ticks probe_ticks c ws app name = do
    pod ←
        annotate (wrapped (codes "wait recovery primary pod"))
          (wait_primary_pod w pod_ticks ws.namespace name)
    let recovery : Conn = record { namespace = ws.namespace; pod = pod; container = ws.container }
    wait_database probe_ticks recovery app
    replace_database recovery c app

  -- the deferred deletion, unless the cluster is known to be deleted
  unfoldable pub with_recovery : Text → Text → Exec (Unit {0}) → Exec (Unit {0})
  unfolding delete_recovery_cluster
  with_recovery namespace name body = do
    done ← outcome (
        body
        >> annotate (wrapped (codes "delete recovery cluster"))
            (delete_recovery_cluster w namespace name))
    or_cleanup w (delete_recovery_cluster w namespace name) done

  module _ (ok_name : Text → Bool) (pod_ticks probe_ticks : ℕ) where
    unfoldable pub restore_steps : Conn → Workspace → Text → Text → Option Text → Exec (Unit {0})
    unfolding sorted_backups check_backup find_backup get_base_cluster create_recovery_cluster
        use_recovery with_recovery
    restore_steps c ws app backup_name target_time = do
      backups ←
          annotate (wrapped (codes "list backups")) (sorted_backups w ws.namespace ws.cluster_name)
      chosen ← lift (check_backup ws.cluster_name backup_name (find_backup backup_name backups))
      base ← get_base_cluster w ws.namespace ws.cluster_name
      now ← ask_number w clock
      let name = recovery_cluster_name app now
      create_recovery_cluster w ws.namespace name chosen.backup_id base target_time
      with_recovery ws.namespace name (use_recovery pod_ticks probe_ticks c ws app name)

    unfoldable pub restore_from_backup : Deps → Text → Text → Option Text → Exec (Unit {0})
    unfolding restore_steps
    restore_from_backup d app backup_name target_time = do
      require (ident_safe app) (bad_name app)
      require (ok_name (trim_space backup_name))
          (message_about (codes "invalid backup name %q") (trim_space backup_name))
      deps ← lift (all_deps (codes "RestoreFromBackup: K8s, PG, and Workspace deps are required") d)
      restore_steps deps.0 deps.1 app (trim_space backup_name) target_time
