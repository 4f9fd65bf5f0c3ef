-- ===== src/Cli/Serve.antt =====
-- cmd/cnpgctl/serve.go: the command `serve`, up to the server's handler.
use cnpg_portal.Prelude.{◌||◌, Text, codes, List, is_empty, if◌then◌else◌}
use cnpg_portal.Result.{Result, message, wrapped}
use cnpg_portal.World.{World, Exec, read_file, ask_text}
use cnpg_portal.World.Chain.{pure, lift, require, annotate, ◌>>=◌, ◌>>◌}
use cnpg_portal.Strings.{trim_space}
use cnpg_portal.Workspace.{or_else}
use cnpg_portal.Workspace.Catalog.{Disk}
use cnpg_portal.Cli.{build_cluster_registry}
use cnpg_portal.Web.Config.{Config, serve_site}
use cnpg_portal.Web.Server.{Site}

-- the environment's values, where the flags are not set
unfoldable pub with_env : (Text → Text) → Config → Config
with_env env c = record c {
  dev_login = or_else c.dev_login (env (codes "CNPG_PORTAL_DEV_LOGIN"));
  admin_list_path = or_else c.admin_list_path (env (codes "CNPG_PORTAL_ADMIN_LIST"));
}

unfoldable pub with_token_file : World → Text → Config → Exec Config
with_token_file w file c =
    if is_empty file
    then pure c
    else annotate (wrapped (codes "read bearer token file")) (ask_text w (read_file file))
      >>= λ text. pure (record c { bearer_token = trim_space text })

unfoldable pub serve_command :
    World
    → Disk
    → (Text → Result (Unit {0}))
    → (Text → Text)
    → Text
    → List Text
    → Text
    → Text
    → Config
    → Exec Site
unfolding with_env with_token_file build_cluster_registry serve_site
serve_command w disk new_client env flag folders kubeconfig token_file c = do
  require (is_empty token_file || is_empty c.bearer_token)
      (message (codes "use either --bearer-token or --bearer-token-file, not both"))
  cfg ← with_token_file w token_file (with_env env c)
  registry ← lift (
      build_cluster_registry disk new_client flag (env (codes "CNPG_PORTAL_WORKSPACE")) folders
        kubeconfig)
  serve_site w cfg registry
