-- ===== src/Tenant/Clone.antt =====
-- internal/tenant/branch.go and internal/tenant/sync.go: a tenant's data copied to another.
use cnpg_portal.Prelude.{
  [], ◌++◌, length, ◌-◌, ◌∷◌, List, take, if◌then◌else◌, Text, codes, Bool, not, eq_text,
}
use cnpg_portal.Result.{
  Result, err_confirmation_required, err_tenant_not_found, message_about, message, wrapped,
}
use cnpg_portal.World.{World, Exec, Conn}
use cnpg_portal.World.Chain.{outcome, require, lift, ◌>>◌, ◌>>=◌}
use cnpg_portal.Sops.{Rules}
use cnpg_portal.ClusterYaml.Roles.{Yaml}
use cnpg_portal.Tenant.{pure, pg_dep, annotate, Deps, Tenant}
use cnpg_portal.Names.{database_name_safe, ident_safe}
use cnpg_portal.Strings.{replace_all}
use cnpg_portal.Tenant.Database.{
  create_database_sql, force_drop_sql, run_statement, ensure_grants, database_exists,
}
use cnpg_portal.Postgres.{pg_dump_restore}
use cnpg_portal.Quoting.{quote_ident}
use cnpg_portal.Tenant.Provision.{provision}

-- base[:n], the suffix behind it
abbrev pub shortened : Text → Text → Text
shortened src suffix = take (63 - length suffix) src ++ suffix

unfoldable pub first_safe : Text → List Text → Text → Text
first_safe src [] last = last
first_safe src (suffix ∷ more) last =
    let rest = first_safe src more last in
    if ident_safe (shortened src suffix) then shortened src suffix else rest

abbrev pub underscored : Text → Text
underscored src = replace_all b'-' (b'_' ∷ []) src

unfoldable pub default_branch_destination : Text → Text
unfolding first_safe
default_branch_destination src =
    let base = underscored src in
    if database_name_safe src
    then first_safe base (codes "_dev" ∷ codes "_d" ∷ codes "_b" ∷ codes "_2" ∷ [])
        (take 59 base ++ codes "_d")
    else []

module _ (w : World) (rules : Rules) (yaml : Yaml) where
  -- what follows the provisioning: its error leaves the tenant in the result
  unfoldable pub branch_data : Conn → Text → Text → Exec (Unit {0})
  branch_data c src dst = do
    annotate (wrapped (codes "pg_dump | pg_restore")) (pg_dump_restore w c src dst)
    annotate (wrapped (codes "ensure grants after branch")) (ensure_grants w c dst)

  -- The second part is the error that is returned together with a tenant.
  unfoldable pub branch : Deps → Text → Text → Exec (Tenant × Result (Unit {0}))
  unfolding branch_data
  branch d src dst = do
    require (database_name_safe src) (message_about (codes "invalid source name %q") src)
    require (ident_safe dst) (message_about (codes "invalid destination name %q") dst)
    require (not (eq_text src dst)) (message (codes "Branch: src and dst must differ"))
    c ← lift (pg_dep (codes "Branch: PG dep is required") d)
    t ← annotate (wrapped (codes "provision")) (provision w rules yaml d dst)
    copied ← outcome (branch_data c src dst)
    pure (t, copied)

module _ (w : World) where
  unfoldable pub require_database : Conn → Text → Exec (Unit {0})
  require_database c name = do
    found ← annotate (wrapped (codes "check database")) (database_exists w c name)
    require found (wrapped (codes "tenant") err_tenant_not_found)

  unfoldable pub sync_steps : Conn → Text → Text → Exec (Unit {0})
  unfolding require_database
  sync_steps c src dst = do
    require_database c src
    require_database c dst
    q ← lift (quote_ident dst)
    annotate (wrapped (codes "drop destination database")) (run_statement w c [] (force_drop_sql q))
    annotate (wrapped (codes "recreate destination database"))
        (run_statement w c [] (create_database_sql q))
    annotate (wrapped (codes "pg_dump | pg_restore")) (pg_dump_restore w c src dst)
    annotate (wrapped (codes "ensure grants after sync")) (ensure_grants w c dst)

  unfoldable pub sync : Deps → Text → Text → Bool → Exec (Unit {0})
  unfolding sync_steps
  sync d src dst confirmed = do
    require (database_name_safe src) (message_about (codes "invalid source name %q") src)
    require (ident_safe dst) (message_about (codes "invalid destination name %q") dst)
    require (not (eq_text src dst)) (message (codes "Sync: src and dst must differ"))
    require confirmed err_confirmation_required
    c ← lift (pg_dep (codes "Sync: PG dep is required") d)
    sync_steps c src dst
