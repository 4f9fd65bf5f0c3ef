-- ===== src/Tenant/Secrets.antt =====
-- internal/tenant/provision.go and rotate.go: the Secret of the cluster and the Secret's file.
use cnpg_portal.Prelude.{Bool, [], Text, codes, ◌&&◌, eq_text, Option, none, some, if◌then◌else◌}
use cnpg_portal.Result.{is_missing, Result, ok, err, wrapped}
use cnpg_portal.World.{
  create_secret, update_secret, stat, get_secret, ask_done, ask_secret, ask_text, World, Exec,
  Secret,
}
use cnpg_portal.World.Chain.{◌>>◌, raise, lift, annotate, outcome, pure, ◌>>=◌}
use cnpg_portal.Workspace.{secret_path, Workspace}
use cnpg_portal.Sops.{write_encrypted_atomic, encrypt_for_workspace, decrypt, Rules}
use cnpg_portal.Password.{parse_secret_password, build_secret_yaml}
use cnpg_portal.Tenant.{secret_name, generate_password}

-- string(data[key]), which is "" for a missing key
abbrev pub data_value : Option Text → Text
data_value none = []
data_value (some s) = s

abbrev pub is_current : Secret → Text → Text → Bool
is_current s username password =
    eq_text (data_value s.password) password && eq_text (data_value s.username) username

module _ (w : World) (ws : Workspace) where
  -- what follows on the answer to the Get
  unfoldable pub put_secret : Text → Text → Text → Result Secret → Exec (Unit {0})
  put_secret name username password (ok s) =
      if is_current s username password
      then pure tt
      else ask_done w (update_secret ws.namespace name username password)
  put_secret name username password (err e) =
      if is_missing e
      then ask_done w (create_secret ws.namespace name username password)
      else raise e

  unfoldable pub apply_cluster_secret : Text → Text → Text → Exec (Unit {0})
  unfolding put_secret
  apply_cluster_secret name username password =
      outcome (ask_secret w (get_secret ws.namespace name)) >>= put_secret name username password

  module _ (rules : Rules) where
    unfoldable pub write_sops_secret : Text → Text → Exec (Unit {0})
    unfolding encrypt_for_workspace write_encrypted_atomic
    write_sops_secret app password = do
      encrypted ←
          encrypt_for_workspace w rules ws.root (secret_path ws app)
            (build_secret_yaml (secret_name ws app) ws.namespace app password)
      write_encrypted_atomic w (secret_path ws app) encrypted

    -- the password of the file that is there
    unfoldable pub existing_password : Text → Exec Text
    unfolding decrypt
    existing_password app = do
      text ← decrypt w ws.root (secret_path ws app)
      annotate (wrapped (codes "parse decrypted")) (lift (parse_secret_password text))

    unfoldable pub new_secret_file : Text → Exec Text
    unfolding generate_password write_sops_secret
    new_secret_file app = do
      password ← generate_password w
      write_sops_secret app password
      pure password

    unfoldable pub file_password : Text → Result Text → Exec Text
    unfolding existing_password new_secret_file
    file_password app (ok _) = existing_password app
    file_password app (err _) = new_secret_file app

    -- any error of the Stat counts as a missing file
    unfoldable pub ensure_secret_file : Text → Exec Text
    unfolding file_password
    ensure_secret_file app = outcome (ask_text w (stat (secret_path ws app))) >>= file_password app
