-- ===== src/Tests/Verbs.antt =====
-- The verbs of the tenants, and the atomic write.
use cnpg_portal.Prelude.{none, eq_text, All, Text, codes, ◌≡◌, refl, some, [], ◌∷◌, true, false}
use cnpg_portal.Result.{Error, ok, err}
use cnpg_portal.World.{World, History, remove_file, stat, sops_decrypt}
use cnpg_portal.World.Chain.{annotate, outcome, ◌>>=◌}
use cnpg_portal.Sops.{write_encrypted_atomic}
use cnpg_portal.Sops.Atomic.{last_call, full_write, write_encrypted_atomic_trace}
use cnpg_portal.Workspace.{secret_path}
use cnpg_portal.Connstr.{Inputs}
use cnpg_portal.Tenant.{build_database_url, service_host, Deps}
use cnpg_portal.Tenant.Provision.{provision, provision_steps}
use cnpg_portal.Tenant.Rotate.{rotate_to, rotate, rotate_steps}
use cnpg_portal.Tenant.Drop.{drop_tenant}
use cnpg_portal.Tenant.Clone.{sync_steps}
use cnpg_portal.Tenant.Restore.{restore_steps}
use cnpg_portal.Tenant.Secrets.{ensure_secret_file, apply_cluster_secret}
use cnpg_portal.Tenant.Database.{role_exists, database_exists, role_sql, database_sql}
use cnpg_portal.Tenant.Footprint.{IsOwnCall, full_deps, verbs-IsOwnCall}
use cnpg_portal.Tenant.Guards.{Refuses, drop_tenant-Refuses}
use cnpg_portal.Tenant.Order.{query_call, rotate_steps-needs_role, sync_steps-needs_source}
use cnpg_portal.Tenant.Reuse.{IsStored, ensure_secret_file-reuses, apply_cluster_secret-IsStored}
use cnpg_portal.Tenant.Cleanup.{IsCleaned, restore_steps-IsCleaned}
use cnpg_portal.Tests.Fixtures.{backup, outside, rules, yaml, primary, site, app, stored}
use cnpg_portal.Names.{ident_safe}
use cnpg_portal.Password.{build_secret_yaml}
use cnpg_portal.Strings.{trim_right, split}
use cnpg_portal.Url.Escaped.{bytes_of, decode}
use cnpg_portal.Tenant.Addresses.{build_database_url-decode, url_password, url_user}

abbrev pub deps : Deps
deps = full_deps primary site

verbs-IsOwnCall_example :
    All (IsOwnCall outside primary site app) (provision outside rules yaml deps app []).1
    × All (IsOwnCall outside primary site app) (rotate outside rules deps app true []).1
    × All (IsOwnCall outside primary site app) (drop_tenant outside yaml deps app true []).1
verbs-IsOwnCall_example = verbs-IsOwnCall outside rules yaml primary site app true

abbrev made : Text
made = codes "B8gh"

abbrev after : History
after = (provision_steps outside rules yaml primary site app []).1

abbrev rotated : History
rotated = (rotate_to outside rules primary site app made []).1

drop_tenant-Refuses_example : Refuses (drop_tenant outside yaml deps app false) []
unfolding ident_safe
drop_tenant-Refuses_example = drop_tenant-Refuses outside rules yaml deps [] app false refl

abbrev target : Text
target = codes "/srv/ws/secrets/pg/a.sops.yaml"

abbrev temporary : Text
temporary = codes "/srv/ws/tmp"

write_encrypted_atomic_trace_example :
    ((write_encrypted_atomic outside target (codes "x") []).0 ≡ ok tt
      → (write_encrypted_atomic outside target (codes "x") []).1
        ≡ full_write target (codes "x") temporary [])
    × ((e : Error)
        → (write_encrypted_atomic outside target (codes "x") []).0 ≡ err e
        → last_call (write_encrypted_atomic outside target (codes "x") []).1
          ≡ some (remove_file temporary))
write_encrypted_atomic_trace_example =
    write_encrypted_atomic_trace outside target (codes "x") temporary [] refl refl

-- an outside with one completed backup, and no pod that gets ready
abbrev backed : World
backed = record outside { backups = λ h c. ok (backup (codes "b") (codes "completed") 5 ∷ []) }

restore_steps-IsCleaned_example :
    IsCleaned backed site app []
      (restore_steps backed (λ name. true) 1 1 primary site app (codes "b") none [])
restore_steps-IsCleaned_example =
    restore_steps-IsCleaned backed site app [] (λ name. true) 1 1 primary (codes "b") none

rotate_steps-needs_role_example :
    (e : Error) × (rotate_steps outside rules primary site app []
      ≡ (err e, query_call primary (role_sql app) ∷ []))
unfolding role_exists ◌>>=◌ annotate split trim_right
rotate_steps-needs_role_example = rotate_steps-needs_role outside primary [] rules site app refl

sync_steps-needs_source_example :
    (e : Error) × (sync_steps outside primary app (codes "b") []
      ≡ (err e, query_call primary (database_sql app) ∷ []))
unfolding database_exists ◌>>=◌ annotate split trim_right
sync_steps-needs_source_example = sync_steps-needs_source outside primary [] app (codes "b") refl

-- an outside where every file is there, and decrypts to a Secret manifest
abbrev populated : World
populated = record outside {
  text = λ h c. ok (build_secret_yaml (codes "s") (codes "pg") app made);
}

ensure_secret_file-reuses_example :
    ensure_secret_file populated site rules app []
    ≡ (ok made, sops_decrypt site.root (secret_path site app) ∷ stat (secret_path site app) ∷ [])
ensure_secret_file-reuses_example =
    ensure_secret_file-reuses populated site [] rules app
      (build_secret_yaml (codes "s") (codes "pg") app made) (codes "s") (codes "pg") made refl refl
      refl refl refl refl

apply_cluster_secret-IsStored_example :
    IsStored site
      (codes "s")
      app
      made
      (ok stored)
      (apply_cluster_secret outside site (codes "s") app made []).1
unfolding apply_cluster_secret ◌>>=◌ outcome eq_text
apply_cluster_secret-IsStored_example =
    apply_cluster_secret-IsStored outside site (codes "s") app made [] refl

build_database_url-decode_example :
    (decode (url_user (build_database_url (codes "db") app (codes "p@ss:w/rd") (codes "pg") app))
      ≡ some (bytes_of app))
    × (decode
          (url_password (build_database_url (codes "db") app (codes "p@ss:w/rd") (codes "pg") app))
        ≡ some (bytes_of (codes "p@ss:w/rd")))
build_database_url-decode_example =
    build_database_url-decode (codes "db") app (codes "p@ss:w/rd") (codes "pg") app

abbrev inputs : Inputs
inputs = record {
  host = service_host (codes "postgres-main") (codes "pg");
  port = 5432;
  database = app;
  user = app;
  password = codes "old";
}
