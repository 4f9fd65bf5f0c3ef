-- ===== src/Web/Pages.antt =====
-- internal/web/handlers.go: what a handler answers. A page is the template that is rendered, with
-- its arguments; the templates themselves are generated code.
use cnpg_portal.Prelude.{
  false, Text, codes, ℕ, List, [], ◌++◌, Bool, leb, Option, none, some, if◌then◌else◌,
}
use cnpg_portal.Result.{
  Error, ok, err, err_not_found, err_cluster_not_found, err_role_exists, err_confirmation_required,
  err_tenant_not_found, err_credentials_not_found, err_backup_failed, err_missing, err_context,
  message, message_about, external, wrapped,
}
use cnpg_portal.World.{Exec, Backup}
use cnpg_portal.Connstr.{Inputs}
use cnpg_portal.Tenant.{Tenant, Deps}
use cnpg_portal.Tenant.Listing.{Connection}
use cnpg_portal.Web.Admins.{is_admin, AdminList}
use cnpg_portal.Web.Identity.{Identity}
use cnpg_portal.Strings.{trim_prefix, trim_last}
use cnpg_portal.Web.{Request}
use cnpg_portal.World.Chain.{pure}

pub data Page : Type 0 where
  error_page : Text → Text → Page
  new_tenant_form : Text → Text → Page
  new_tenant_created : Tenant → Page
  import_dump_form : Text → Text → Page
  branch_tenant_form : Text → Text → Text → Page
  branch_tenant_created : Text → Tenant → Page
  sync_tenant_form : Text → List Text → Text → Page
  sync_tenant_done : Text → Text → Page
  drop_tenant_form : Text → Text → Page
  drop_tenant_done : Text → Page
  rotate_tenant_form : Text → Text → Page
  rotate_tenant_done : Tenant → Page
  restore_tenant_form : Text → List (Text × Text) → Text → Page
  restore_tenant_done : Text → Page
  tenant_connections : Text → List Connection → Bool → Text → Page
  tenant_list : List Tenant → Text → Bool → Page
  tenant_detail : Tenant → Option Inputs → Bool → Page
  tenant_not_found : Text → Page
  backup_status : Option Backup → Text → Page
  -- a dump with its file name
  attachment : Text → Text → Page
  -- http.Redirect and http.Error
  redirect plain : Text → Page

pub record Reply : Type 0 where
  pub status : ℕ
  pub page : Page

-- the fields of Handlers; `ClusterID` and `DisplayName` are read by the page context only
pub record Handlers : Type 0 where
  pub deps : Deps
  pub admins : Option AdminList
  pub base_path : Text

-- what the middleware has put into the request's context
pub record Context : Type 0 where
  pub identity : Option Identity
  pub rid : Text

-- err.Error()
unfoldable pub error_text : Error → Text
error_text err_not_found =
    codes "no .cnpg-portal-workspace marker found (set --workspace or $CNPG_PORTAL_WORKSPACE)"
error_text err_cluster_not_found = codes "cluster not found in workspace"
error_text err_role_exists = codes "role already exists"
error_text err_confirmation_required =
    codes "confirmation required (CLI: --yes-i-mean-it; UI: type tenant name)"
error_text err_tenant_not_found = codes "tenant not found"
error_text err_credentials_not_found = codes "credentials secret not found"
error_text err_backup_failed = codes "cnpg backup failed"
error_text err_missing = codes "not found"
error_text err_context = codes "context deadline exceeded"
error_text (message t) = t
error_text (message_about t name) = t ++ (codes " " ++ name)
error_text (external t) = t
error_text (wrapped t e) = t ++ (codes ": " ++ error_text e)

abbrev pub html : ℕ → Page → Reply
html status page = record { status = status; page = page }

-- renderError: the text of a server error is not shown
unfoldable pub render_error : Context → ℕ → Text → Text → Reply
render_error x status title body = html status (
    error_page title (
      if leb 500 status
      then codes "The operation failed. Check the server log with request ID "
        ++ (x.rid ++ codes ".")
      else body))

-- strings.TrimSuffix(h.BasePath, "/") + "/" + strings.TrimPrefix(path, "/")
unfoldable pub route_path : Handlers → Text → Text
route_path h path = trim_last b'/' h.base_path ++ (codes "/" ++ trim_prefix path (codes "/"))

-- if !ok { reply; return }
abbrev pub check : Bool → Reply → Exec Reply → Exec Reply
check good reply rest = if good then rest else pure reply

abbrev pub no_deps : Context → Reply
no_deps x = render_error x 503 (codes "dependencies not configured") []

abbrev pub no_database : Context → Reply
no_database x = render_error x 503 (codes "database client not configured") []

abbrev pub tenant_rule : Text
tenant_rule = codes "Tenant names must match [a-z][a-z0-9_]{0,62}."

abbrev pub database_rule : Text
database_rule = codes "Database names must match [a-z][a-z0-9_-]{0,62}."

abbrev pub bad_tenant : Context → Reply
bad_tenant x = render_error x 400 (codes "invalid tenant name") tenant_rule

abbrev pub bad_database : Context → Reply
bad_database x = render_error x 400 (codes "invalid database name") database_rule

-- if err := r.ParseForm(); err != nil { … }
unfoldable pub with_form : Context → Request → ((Text → Text) → Exec Reply) → Exec Reply
with_form x q rest = elim q.form [
  | err e ↦ pure (render_error x 400 (codes "invalid form") (error_text e))
  | ok form ↦ rest form
]

-- the login of the identity that is known, or ""
unfoldable pub login_of : Context → Text
login_of x = elim x.identity [ none ↦ [] | some i ↦ i.login ]

-- ok && h.Auth.Admins != nil && h.Auth.Admins.Has(id.Login)
unfoldable pub sees_as_admin : Handlers → Context → Bool
sees_as_admin h x = elim x.identity [ none ↦ false | some i ↦ is_admin h.admins i.login ]
