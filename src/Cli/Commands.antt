-- ===== src/Cli/Commands.antt =====
-- cmd/cnpgctl: the commands around the verbs that change a tenant. `found` is the workspace that a
-- command has found from its flags, and the result is what it prints, line by line. A dump is read
-- in one call.
use cnpg_portal.Prelude.{
  Text, codes, ℕ, List, [], ◌∷◌, ◌++◌, Bool, not, Option, none, some, is_empty,
}
use cnpg_portal.Result.{Result, ok, err, message, message_about, wrapped}
use cnpg_portal.World.{World, Exec, read_file, ask_text}
use cnpg_portal.World.Chain.{pure, lift, require, annotate, ◌>>=◌, ◌>>◌}
use cnpg_portal.Sops.{Rules}
use cnpg_portal.ClusterYaml.Roles.{Yaml}
use cnpg_portal.Strings.{trim_space}
use cnpg_portal.Workspace.{Workspace, cluster_yaml_path, secret_path}
use cnpg_portal.Tenant.{Tenant}
use cnpg_portal.Tenant.Provision.{provision}
use cnpg_portal.Tenant.Drop.{drop_tenant}
use cnpg_portal.Tenant.Rotate.{rotate}
use cnpg_portal.Tenant.Clone.{branch, sync}
use cnpg_portal.Tenant.Import.{import_from_remote_url, ParsedUrl, import_from_dump}
use cnpg_portal.Tenant.Restore.{restore_from_backup}
use cnpg_portal.Cli.{deps_of}

-- fmt.Fprintln of texts
abbrev pub println : List Text → Text
println [] = []
println (t ∷ []) = t
println (t ∷ u ∷ more) = t ++ (codes " " ++ println (u ∷ more))

abbrev pub row : Text → Text → Text
row name value = println (name ∷ value ∷ [])

-- the tenant that comes with its result
unfoldable pub tenant_of_import : Tenant × Result (Unit {0}) → Result Tenant
tenant_of_import (t, ok u) = ok t
tenant_of_import (t, err e) = err e

module _ (w : World) (rules : Rules) (yaml : Yaml) (found : Result Workspace) where
  unfoldable pub new_command : Text → Exec (List Text)
  unfolding provision deps_of
  new_command app = do
    ws ← lift found
    t ← provision w rules yaml (deps_of ws) app
    pure (
        codes "tenant provisioned"
        ∷ row (codes "  app          ") t.name
        ∷ row (codes "  role         ") t.role
        ∷ row (codes "  database     ") t.database
        ∷ row (codes "  secret       ") t.secret_name
        ∷ row (codes "  workspace    ") ws.root
        ∷ row (codes "  cluster.yaml ") (cluster_yaml_path ws)
        ∷ row (codes "  encrypted at ") (secret_path ws app)
        ∷ []
        ∷ codes "DATABASE_URL (handle as a secret — printed once):"
        ∷ row (codes " ") t.database_url
        ∷ []
        ∷ codes "Next:"
        ∷ println (
            codes "  git -C"
            ∷ ws.root
            ∷ (codes "add <cluster.yaml> <secrets-dir>/"
                ++ (app ++ codes "-pg-credentials.sops.yaml"))
            ∷ [])
        ∷ println (
            codes "  git -C"
            ∷ ws.root
            ∷ codes "commit -m \"feat(pg): provision"
            ∷ app
            ∷ codes "database\""
            ∷ [])
        ∷ [])

  unfoldable pub drop_command : Text → Bool → Exec (List Text)
  unfolding drop_tenant deps_of
  drop_command app confirmed = do
    ws ← lift found
    drop_tenant w yaml (deps_of ws) app confirmed
    pure (
        codes "tenant dropped"
        ∷ row (codes "  app          ") app
        ∷ row (codes "  cluster.yaml ") (cluster_yaml_path ws)
        ∷ row (codes "  removed      ") (secret_path ws app)
        ∷ []
        ∷ codes
            "S3 backups (Barman Cloud ObjectStore) are NOT purged — ObjectStore retention / bucket lifecycle own cleanup."
        ∷ []
        ∷ codes "Next:"
        ∷ println (codes "  git -C" ∷ ws.root ∷ codes "add <cluster.yaml> <secrets-dir>/" ∷ [])
        ∷ println (
            codes "  git -C"
            ∷ ws.root
            ∷ codes "commit -m \"feat(pg): drop"
            ∷ app
            ∷ codes "database\""
            ∷ [])
        ∷ [])

  unfoldable pub rotate_command : Text → Bool → Exec (List Text)
  unfolding rotate deps_of
  rotate_command app confirmed = do
    ws ← lift found
    t ← rotate w rules (deps_of ws) app confirmed
    pure (
        codes "credentials rotated"
        ∷ row (codes "  app          ") t.name
        ∷ row (codes "  secret       ") t.secret_name
        ∷ row (codes "  database url ") t.database_url
        ∷ []
        ∷ codes "Treat the URL as a secret. It is shown once; persist it where the app needs it."
        ∷ []
        ∷ codes "Next:"
        ∷ println (codes "  git -C" ∷ ws.root ∷ codes "add" ∷ secret_path ws app ∷ [])
        ∷ println (
            codes "  git -C"
            ∷ ws.root
            ∷ (codes "commit -m \"feat(pg): rotate " ++ (app ++ codes " credentials\""))
            ∷ [])
        ∷ [])

  unfoldable pub branch_command : Text → Text → Exec (List Text)
  unfolding branch deps_of tenant_of_import
  branch_command src dst = do
    ws ← lift found
    cloned ← branch w rules yaml (deps_of ws) src dst
    t ← lift (tenant_of_import cloned)
    pure (
        codes "branch complete"
        ∷ row (codes "  source       ") src
        ∷ row (codes "  destination  ") t.name
        ∷ row (codes "  cluster.yaml ") (cluster_yaml_path ws)
        ∷ row (codes "  encrypted at ") (secret_path ws t.name)
        ∷ []
        ∷ codes "DATABASE_URL (handle as a secret — printed once):"
        ∷ row (codes " ") t.database_url
        ∷ [])

  unfoldable pub sync_command : Text → Text → Bool → Exec (List Text)
  unfolding sync deps_of
  sync_command src dst confirmed = do
    ws ← lift found
    sync w (deps_of ws) src dst confirmed
    pure (
        codes "sync complete"
        ∷ row (codes "  source       ") src
        ∷ row (codes "  destination  ") dst
        ∷ row (codes "  cluster.yaml ") (cluster_yaml_path ws)
        ∷ [])

  unfoldable pub import_dump_command : Text → Text → Exec (List Text)
  unfolding import_from_dump deps_of tenant_of_import
  import_dump_command app file = do
    require (not (is_empty file)) (message (codes "--file is required"))
    ws ← lift found
    dump ← annotate (wrapped (codes "open dump file")) (ask_text w (read_file file))
    imported ← import_from_dump w rules yaml (deps_of ws) app dump
    t ← lift (tenant_of_import imported)
    pure (
        codes "import complete"
        ∷ row (codes "  app          ") t.name
        ∷ row (codes "  workspace    ") ws.root
        ∷ []
        ∷ codes "DATABASE_URL (handle as a secret — printed once):"
        ∷ row (codes " ") t.database_url
        ∷ [])

  unfoldable pub import_url_command : (Text → Result ParsedUrl) → Text → Text → Exec (List Text)
  unfolding import_from_remote_url deps_of tenant_of_import
  import_url_command parse_url app from_url = do
    require (not (is_empty from_url)) (message (codes "--from-url is required"))
    ws ← lift found
    imported ← import_from_remote_url w rules yaml parse_url (deps_of ws) app from_url
    t ← lift (tenant_of_import imported)
    pure (
        codes "import from URL complete"
        ∷ row (codes "  app          ") t.name
        ∷ row (codes "  workspace    ") ws.root
        ∷ []
        ∷ codes "DATABASE_URL (handle as a secret — printed once):"
        ∷ row (codes " ") t.database_url
        ∷ [])

  -- the optional time of --target-time
  unfoldable pub flag_time : (Text → Result Text) → Text → Result (Option Text)
  flag_time parse_time [] = ok none
  flag_time parse_time (c ∷ s) = elim (parse_time (c ∷ s)) [
    | err e ↦ err (wrapped (codes "parse --target-time") e)
    | ok t ↦ ok (some t)
  ]

  unfoldable pub restore_command :
      (Text → Bool) → (Text → Result Text) → ℕ → ℕ → Text → Text → Text → Exec (List Text)
  unfolding flag_time restore_from_backup deps_of
  restore_command ok_name parse_time pod_ticks probe_ticks arg backup time = do
    ws ← lift found
    let app = trim_space arg
    require (not (is_empty (trim_space backup))) (message (codes "--backup is required"))
    require (ok_name backup) (message_about (codes "invalid backup name %q") backup)
    target ← lift (flag_time parse_time (trim_space time))
    restore_from_backup w ok_name pod_ticks probe_ticks (deps_of ws) app backup target
    pure ((codes "restore complete for tenant \"" ++ (app ++ codes "\"")) ∷ [])
