-- ===== src/Web/Config.antt =====
-- internal/web/server.go: what ServeClusters makes of its configuration. The listening, the draining
-- and the log are left out; a duration is a number of nanoseconds.
use cnpg_portal.Prelude.{◌||◌, Text, codes, ℕ, List, not, ◌&&◌, ◌==◌, some, is_empty, if◌then◌else◌}
use cnpg_portal.Result.{message}
use cnpg_portal.World.{World, Exec}
use cnpg_portal.World.Chain.{pure, require, ◌>>=◌, ◌>>◌}
use cnpg_portal.Workspace.{or_else}
use cnpg_portal.Web.Admins.{AdminList, new_admin_list, grant_dev_fallback, set_bearer_admin}
use cnpg_portal.Web.Registry.{ClusterRegistry}
use cnpg_portal.Web.Server.{Site}

pub record Config : Type 0 where
  pub addr : Text
  pub read_timeout : ℕ
  pub write_timeout : ℕ
  pub shutdown_grace : ℕ
  pub dev_login : Text
  pub tailnet_fallback_login : Text
  pub admin_list_path : Text
  pub bearer_token : Text
  pub bearer_identity : Text
  pub allowed_origins : List Text

abbrev pub or_duration : ℕ → ℕ → ℕ
or_duration d fallback = if d == 0 then fallback else d

unfoldable pub with_defaults : Config → Config
with_defaults c = record c {
  addr = or_else c.addr (codes ":8080");
  read_timeout = or_duration c.read_timeout 15000000000;
  write_timeout = or_duration c.write_timeout 5400000000000;
  shutdown_grace = or_duration c.shutdown_grace 20000000000;
}

-- the logins that the configuration grants
unfoldable pub grant_logins : Config → AdminList → AdminList
unfolding grant_dev_fallback set_bearer_admin
grant_logins c a =
    let no_path = is_empty c.admin_list_path in
    let dev =
      if no_path && not (is_empty c.dev_login) then grant_dev_fallback c.dev_login a else a in
    let tailnet =
      if no_path && not (is_empty c.tailnet_fallback_login)
      then grant_dev_fallback c.tailnet_fallback_login dev
      else dev in
    if not (is_empty c.bearer_token) && not (is_empty c.bearer_identity)
    then set_bearer_admin c.bearer_identity tailnet
    else tailnet

unfoldable pub site_of : Config → ClusterRegistry → AdminList → Site
unfolding grant_logins
site_of c registry a = record {
  auth = record {
    dev_login = c.dev_login;
    bearer_token = c.bearer_token;
    bearer_identity = c.bearer_identity;
    tailnet_fallback_login = c.tailnet_fallback_login;
  };
  admins = some (grant_logins c a);
  allowed = c.allowed_origins;
  registry = registry;
}

unfoldable pub serve_site : World → Config → ClusterRegistry → Exec Site
unfolding new_admin_list site_of
serve_site w c registry = do
  admins ← new_admin_list w c.admin_list_path
  require (is_empty c.bearer_token || not (is_empty c.bearer_identity))
      (message (codes "serve: --bearer-identity is required when a bearer token is set"))
  require (not (is_empty c.bearer_token) || is_empty c.bearer_identity) (
      message
        (codes "serve: set --bearer-token or --bearer-token-file when --bearer-identity is set"))
  pure (site_of c registry admins)
