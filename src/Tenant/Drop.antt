-- ===== src/Tenant/Drop.antt =====
-- internal/tenant/drop.go: Drop.
use cnpg_portal.Prelude.{[], if◌then◌else◌, Text, codes, Bool}
use cnpg_portal.Result.{is_missing, Result, ok, err, err_confirmation_required, wrapped}
use cnpg_portal.World.{remove_file, delete_secret, ask_done, World, Exec, Conn}
use cnpg_portal.World.Chain.{outcome, lift, require, ◌>>◌, raise, ◌>>=◌}
use cnpg_portal.Workspace.{secret_path, cluster_yaml_path, Workspace}
use cnpg_portal.ClusterYaml.Roles.{Yaml}
use cnpg_portal.Tenant.{secret_name, annotate, all_deps, pure, Deps}
use cnpg_portal.ClusterYaml.Files.{remove_role}
use cnpg_portal.Tenant.Database.{drop_role_sql, drop_database_sql, terminate_sql, run_statement}
use cnpg_portal.Names.{ident_safe}
use cnpg_portal.Quoting.{quote_ident}
use cnpg_portal.Tenant.Provision.{bad_name}

-- if err != nil && !IsNotFound(err) { return fmt.Errorf("…: %w", err) }
unfoldable pub or_missing : Text → Result (Unit {0}) → Exec (Unit {0})
or_missing what (ok _) = pure tt
or_missing what (err e) = if is_missing e then pure tt else raise (wrapped what e)

module _ (w : World) (yaml : Yaml) where
  unfoldable pub drop_steps : Conn → Workspace → Text → Exec (Unit {0})
  unfolding or_missing remove_role run_statement
  drop_steps c ws app = do
    q ← lift (quote_ident app)
    outcome (run_statement w c [] (terminate_sql app)) >>= λ _.
        annotate (wrapped (codes "drop database")) (run_statement w c [] (drop_database_sql q))
    annotate (wrapped (codes "drop role")) (run_statement w c [] (drop_role_sql q))
    deleted ← outcome (ask_done w (delete_secret ws.namespace (secret_name ws app)))
    or_missing (codes "delete secret") deleted
    annotate (wrapped (codes "patch cluster.yaml")) (remove_role w yaml (cluster_yaml_path ws) app)
    removed ← outcome (ask_done w (remove_file (secret_path ws app)))
    or_missing (codes "remove sops file") removed

  unfoldable pub drop_tenant : Deps → Text → Bool → Exec (Unit {0})
  unfolding drop_steps
  drop_tenant d app confirmed = do
    require (ident_safe app) (bad_name app)
    require confirmed err_confirmation_required
    deps ← lift (all_deps (codes "Drop: K8s, PG, and Workspace deps are required") d)
    drop_steps deps.0 deps.1 app
