-- ===== src/Tenant/Provision.antt =====
-- internal/tenant/provision.go: Provision.
use cnpg_portal.Prelude.{if◌then◌else◌, Text, codes, ◌++◌}
use cnpg_portal.Result.{is_role_exists, Error, Result, ok, err, message_about, wrapped}
use cnpg_portal.World.{World, Exec, Conn}
use cnpg_portal.World.Chain.{outcome, lift, require, ◌>>◌, raise, ◌>>=◌}
use cnpg_portal.Workspace.{cluster_yaml_path, Workspace}
use cnpg_portal.Sops.{Rules}
use cnpg_portal.ClusterYaml.Roles.{Yaml, Role}
use cnpg_portal.Tenant.{annotate, tenant_of, all_deps, secret_name, pure, Deps, Tenant}
use cnpg_portal.Tenant.Secrets.{apply_cluster_secret, ensure_secret_file}
use cnpg_portal.Tenant.Database.{ensure_grants, ensure_database, ensure_role}
use cnpg_portal.Names.{ident_safe}
use cnpg_portal.ClusterYaml.Files.{append_role}

abbrev pub bad_name : Text → Error
bad_name app = message_about (codes "invalid tenant name %q") app

-- errors.Is(err, ErrRoleExists) is success
unfoldable pub or_role_exists : Result (Unit {0}) → Exec (Unit {0})
or_role_exists (ok _) = pure tt
or_role_exists (err e) =
    if is_role_exists e then pure tt else raise (wrapped (codes "patch cluster.yaml") e)

unfoldable pub new_role : Workspace → Text → Role
new_role ws app = record {
  name = app;
  comment = app ++ codes " application user";
  password_secret = secret_name ws app;
}

module _ (w : World) (rules : Rules) (yaml : Yaml) where
  -- the six steps, once the guards have passed
  unfoldable pub provision_steps : Conn → Workspace → Text → Exec Tenant
  unfolding ensure_secret_file apply_cluster_secret ensure_role ensure_database ensure_grants
      append_role or_role_exists tenant_of
  provision_steps c ws app = do
    password ← annotate (wrapped (codes "ensure secret file")) (ensure_secret_file w ws rules app)
    annotate (wrapped (codes "apply cluster secret"))
        (apply_cluster_secret w ws (secret_name ws app) app password)
    annotate (wrapped (codes "ensure role")) (ensure_role w c app password)
    annotate (wrapped (codes "ensure database")) (ensure_database w c app)
    annotate (wrapped (codes "ensure grants")) (ensure_grants w c app)
    patched ← outcome (append_role w yaml (cluster_yaml_path ws) (new_role ws app))
    or_role_exists patched
    pure (tenant_of ws app password)

  unfoldable pub provision : Deps → Text → Exec Tenant
  unfolding provision_steps
  provision d app = do
    require (ident_safe app) (bad_name app)
    deps ← lift (all_deps (codes "Provision: K8s, PG, and Workspace deps are required") d)
    provision_steps deps.0 deps.1 app
