-- ===== src/Tenant/Footprint.antt =====
-- The calls of Provision, Rotate and Drop (internal/tenant).
use cnpg_portal.Prelude.{Bool, some, true, [], ◌∷◌, All, Text, codes, List, Option}
use cnpg_portal.Result.{Error, Result, ok, err}
use cnpg_portal.World.{
  remove_file, ask_done, sops_decrypt, stat, encrypt, write_file, read_file, delete_secret,
  update_secret, create_secret, World, Call, Conn, History, exec, get_secret,
}
use cnpg_portal.World.Chain.{◌>>◌, require}
use cnpg_portal.World.Keeps.{
  Keeps-require, Keeps-bind_ok, Keeps-annotate, Keeps-lift, Keeps-ask_secret, Keeps-outcome,
  Keeps-raise, Keeps-pure, Keeps-ask_done, Keeps-if, Keeps-ask_text, Keeps-bind, Keeps, Grows,
  keeps_rules,
}
use cnpg_portal.Sops.{Rules}
use cnpg_portal.Sops.Footprint.{
  Keeps-decrypt, Keeps-write_encrypted_atomic, Keeps-encrypt_for_workspace, IsWriteCall,
}
use cnpg_portal.ClusterYaml.Roles.{Yaml}
use cnpg_portal.Workspace.{secret_path, cluster_yaml_path, Workspace}
use cnpg_portal.Tenant.{Exec, all_deps, Deps, random_bytes, Secret, generate_password, secret_name}
use cnpg_portal.Tenant.Database.{
  alter_role_password, role_exists, ensure_grants, ensure_database, ensure_role, has_rows,
  run_statement,
}
use cnpg_portal.Tenant.Secrets.{
  new_secret_file, existing_password, file_password, put_secret, ensure_secret_file,
  write_sops_secret, apply_cluster_secret,
}
use cnpg_portal.ClusterYaml.Files.{remove_role, append_role, modify}
use cnpg_portal.Tenant.Provision.{provision, or_role_exists, provision_steps}
use cnpg_portal.Postgres.Footprint.{Keeps-run_query, Keeps-run_sql}
use cnpg_portal.ClusterYaml.{Node}
use cnpg_portal.Paths.{join_path}
use cnpg_portal.Tenant.Rotate.{rotate, rotate_to, rotate_steps}
use cnpg_portal.Tenant.Drop.{drop_tenant, drop_steps, or_missing}
use cnpg_portal.Names.{ident_safe}

pub data IsOwnCall (w : World) (c : Conn) (ws : Workspace) (app : Text) : Call → Type 0 where
  command : (args : List Text) (stdin : Option Text) → IsOwnCall w c ws app (exec c args stdin)
  read_secret : IsOwnCall w c ws app (get_secret ws.namespace (secret_name ws app))
  new_secret :
      (username password : Text)
      → IsOwnCall w c ws app (create_secret ws.namespace (secret_name ws app) username password)
  changed_secret :
      (username password : Text)
      → IsOwnCall w c ws app (update_secret ws.namespace (secret_name ws app) username password)
  dropped_secret : IsOwnCall w c ws app (delete_secret ws.namespace (secret_name ws app))
  read_manifest : IsOwnCall w c ws app (read_file (cluster_yaml_path ws))
  changed_manifest : (text : Text) → IsOwnCall w c ws app (write_file (cluster_yaml_path ws) text)
  sops_rules : IsOwnCall w c ws app (read_file (join_path (ws.root ∷ codes ".sops.yaml" ∷ [])))
  encryption : (recipient plain : Text) → IsOwnCall w c ws app (encrypt recipient plain)
  randomness : IsOwnCall w c ws app (random_bytes 24)
  looked_up : IsOwnCall w c ws app (stat (secret_path ws app))
  decryption : IsOwnCall w c ws app (sops_decrypt ws.root (secret_path ws app))
  dropped_file : IsOwnCall w c ws app (remove_file (secret_path ws app))
  written : (k : Call) → IsWriteCall w (secret_path ws app) k → IsOwnCall w c ws app k

abbrev pub full_deps : Conn → Workspace → Deps
full_deps c ws = record { has_k8s = true; pg = some c; workspace = some ws }

module _ (w : World) (rules : Rules) (yaml : Yaml) (c : Conn) (ws : Workspace) (app : Text) where
  abbrev Own : History → Type 0
  Own h = All (IsOwnCall w c ws app) h

  grows : Grows Own (IsOwnCall w c ws app)
  grows k i h all_own = (i, all_own)

  Keeps-sql : (db script : Text) → Keeps Own (run_statement w c db script)
  unfolding run_statement
  Keeps-sql db script =
      search (keeps_rules, Keeps-run_sql w grows c (λ args stdin. command args stdin))

  Keeps-has_rows : (query : Text) → Keeps Own (has_rows w c query)
  unfolding has_rows
  Keeps-has_rows query =
      search (keeps_rules, Keeps-run_query w grows c (λ args stdin. command args stdin))

  Keeps-secret :
      (password : Text) → Keeps Own (apply_cluster_secret w ws (secret_name ws app) app password)
  unfolding apply_cluster_secret put_secret
  Keeps-secret password =
      Keeps-bind _ _ (Keeps-outcome _ (Keeps-ask_secret w grows _ read_secret))
        λ r. Keeps-put password r
    where
      Keeps-put :
          (password : Text) (r : Result Secret)
          → Keeps Own (put_secret w ws (secret_name ws app) app password r)
      Keeps-put password (ok s) =
          Keeps-if _ _ _ (Keeps-pure _) (Keeps-ask_done w grows _ (changed_secret app password))
      Keeps-put password (err e) =
          Keeps-if _ _ _ (Keeps-ask_done w grows _ (new_secret app password)) (Keeps-raise e)

  Keeps-write_sops_secret :
      (password : Text) → Keeps Own (write_sops_secret w ws rules app password)
  unfolding write_sops_secret
  Keeps-write_sops_secret password =
      Keeps-bind _ _
        (Keeps-encrypt_for_workspace w grows rules ws.root _ _ sops_rules λ r. encryption r _)
        λ encrypted. Keeps-write_encrypted_atomic w grows _ written encrypted

  Keeps-generate : Keeps Own (generate_password w)
  unfolding generate_password
  Keeps-generate = search (keeps_rules, Keeps-ask_text w grows, randomness)

  Keeps-file : Keeps Own (ensure_secret_file w ws rules app)
  unfolding ensure_secret_file file_password existing_password new_secret_file
  Keeps-file = Keeps-bind _ _ (Keeps-outcome _ (Keeps-ask_text w grows _ looked_up)) Keeps-password
    where
      Keeps-password : (r : Result Text) → Keeps Own (file_password w ws rules app r)
      Keeps-password (ok s) =
          Keeps-bind _ _ (Keeps-decrypt w grows ws.root _ decryption)
            λ text. Keeps-annotate _ _ (Keeps-lift _)
      Keeps-password (err e) =
          Keeps-bind _ _ Keeps-generate
            λ p. Keeps-bind _ _ (Keeps-write_sops_secret p) λ u. Keeps-pure p

  Keeps-modify :
      (fn : List Node → Result (List Node)) → Keeps Own (modify w yaml (cluster_yaml_path ws) fn)
  unfolding modify
  Keeps-modify fn =
      Keeps-bind _ _ (Keeps-ask_text w grows _ read_manifest)
        λ text. Keeps-bind _ _ (Keeps-lift _) λ t. Keeps-ask_done w grows _ (changed_manifest t)

  Keeps-or_role_exists : (r : Result (Unit {0})) → Keeps Own (or_role_exists r)
  unfolding or_role_exists
  Keeps-or_role_exists (ok u) = Keeps-pure u
  Keeps-or_role_exists (err e) = Keeps-if _ _ _ (Keeps-pure _) (Keeps-raise _)

  Keeps-provision_steps : Keeps Own (provision_steps w rules yaml c ws app)
  unfolding provision_steps append_role or_role_exists ensure_role ensure_database ensure_grants
  Keeps-provision_steps =
      search
        (
          keeps_rules, Keeps-file, Keeps-secret, Keeps-sql, Keeps-has_rows, Keeps-modify,
          Keeps-or_role_exists,
        )
        depth 20

  Keeps-rotate_steps : Keeps Own (rotate_steps w rules c ws app)
  unfolding rotate_steps rotate_to role_exists alter_role_password
  Keeps-rotate_steps =
      search
        (
          keeps_rules, Keeps-generate, Keeps-secret, Keeps-write_sops_secret, Keeps-sql,
          Keeps-has_rows,
        )
        depth 20

  Keeps-or_missing : (what : Text) (r : Result (Unit {0})) → Keeps Own (or_missing what r)
  unfolding or_missing
  Keeps-or_missing what (ok u) = Keeps-pure u
  Keeps-or_missing what (err e) = Keeps-if _ _ _ (Keeps-pure _) (Keeps-raise _)

  Keeps-remove_role : Keeps Own (remove_role w yaml (cluster_yaml_path ws) app)
  unfolding remove_role
  Keeps-remove_role = search (keeps_rules, Keeps-modify)

  Keeps-delete : Keeps Own (ask_done w (delete_secret ws.namespace (secret_name ws app)))
  Keeps-delete = Keeps-ask_done w grows _ dropped_secret

  Keeps-remove : Keeps Own (ask_done w (remove_file (secret_path ws app)))
  Keeps-remove = Keeps-ask_done w grows _ dropped_file

  Keeps-drop_steps : Keeps Own (drop_steps w yaml c ws app)
  unfolding drop_steps
  Keeps-drop_steps =
      search
        (keeps_rules, Keeps-or_missing, Keeps-remove_role, Keeps-sql, Keeps-delete, Keeps-remove)
        depth 20

  Keeps-guard {ℓ} :
      {A : Type ℓ} (b : Bool) (e : Error) (m : Exec A) → Keeps Own m → Keeps Own (require b e >> m)
  Keeps-guard b e m k = Keeps-bind _ _ (Keeps-require b e) λ u. k

  -- Provision, Rotate and Drop of a tenant make no call but the tenant's own, on every path and for
  -- every answer of the outside: commands in the workspace's pod, the one Secret and the one Secret
  -- file that carry the tenant's name, temporary files that were made for that file, the
  -- workspace's manifest and its SOPS rules, the random source and the encryption.
  pub verbs-IsOwnCall :
      (confirmed : Bool)
      → All (IsOwnCall w c ws app) (provision w rules yaml (full_deps c ws) app []).1
        × All (IsOwnCall w c ws app) (rotate w rules (full_deps c ws) app confirmed []).1
        × All (IsOwnCall w c ws app) (drop_tenant w yaml (full_deps c ws) app confirmed []).1
  unfolding provision rotate drop_tenant all_deps
  verbs-IsOwnCall confirmed =
      let p = Keeps-guard (ident_safe app) _ _ (Keeps-bind_ok _ _ Keeps-provision_steps) in
      let r =
        Keeps-guard (ident_safe app) _ _
          (Keeps-guard confirmed _ _ (Keeps-bind_ok _ _ Keeps-rotate_steps)) in
      let d =
        Keeps-guard (ident_safe app) _ _
          (Keeps-guard confirmed _ _ (Keeps-bind_ok _ _ Keeps-drop_steps)) in
      (p.at [] tt, r.at [] tt, d.at [] tt)
