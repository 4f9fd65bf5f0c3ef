-- ===== src/Tenant/Rotate.antt =====
-- internal/tenant/rotate.go: Rotate.
use cnpg_portal.Prelude.{Text, codes, Bool}
use cnpg_portal.Result.{err_confirmation_required, message_about, wrapped}
use cnpg_portal.World.{World, Exec, Conn}
use cnpg_portal.World.Chain.{lift, require, ◌>>◌, ◌>>=◌}
use cnpg_portal.Workspace.{Workspace}
use cnpg_portal.Sops.{Rules}
use cnpg_portal.Tenant.{
  tenant_of, all_deps, pure, secret_name, generate_password, annotate, Deps, Tenant,
}
use cnpg_portal.Tenant.Database.{alter_role_password, role_exists}
use cnpg_portal.Tenant.Secrets.{write_sops_secret, apply_cluster_secret}
use cnpg_portal.Names.{ident_safe}
use cnpg_portal.Tenant.Provision.{bad_name}

module _ (w : World) (rules : Rules) where
  -- from the new password on
  unfoldable pub rotate_to : Conn → Workspace → Text → Text → Exec Tenant
  rotate_to c ws app password = do
    annotate (wrapped (codes "alter role password")) (alter_role_password w c app password)
    annotate (wrapped (codes "apply cluster secret"))
        (apply_cluster_secret w ws (secret_name ws app) app password)
    annotate (wrapped (codes "write sops file")) (write_sops_secret w ws rules app password)
    pure (tenant_of ws app password)

  unfoldable pub rotate_steps : Conn → Workspace → Text → Exec Tenant
  unfolding rotate_to
  rotate_steps c ws app = do
    exists ← annotate (wrapped (codes "check role exists")) (role_exists w c app)
    require exists (message_about (codes "role %q does not exist on pg-primary") app)
    password ← annotate (wrapped (codes "generate password")) (generate_password w)
    rotate_to c ws app password

  unfoldable pub rotate : Deps → Text → Bool → Exec Tenant
  unfolding rotate_steps
  rotate d app confirmed = do
    require (ident_safe app) (bad_name app)
    require confirmed err_confirmation_required
    deps ← lift (all_deps (codes "Rotate: K8s, PG, and Workspace deps are required") d)
    rotate_steps deps.0 deps.1 app
