-- ===== src/Tenant.antt =====
-- internal/tenant: what every verb takes and returns, and the steps that the verbs share.
-- `Deps` keeps which of the dependencies are nil; what stands behind them is the outside.
use cnpg_portal.Prelude.{◌&&◌, pos, [], ℤ, ◌++◌, Text, codes, Bool, true, false, Option, none, some}
use cnpg_portal.Result.{Error, Result, ok, err, message, wrapped}
use cnpg_portal.World.{random_bytes, ask_text, World, Exec, Conn, Secret}
use cnpg_portal.World.Chain.{pure, annotate, ◌>>=◌}
use cnpg_portal.Workspace.{credentials_suffix, secret_name, Workspace}
pub mod Secrets
pub mod Database
pub mod Provision
pub mod Rotate
pub mod Drop
pub mod Clone
pub mod Restore
pub mod Import
pub mod Listing
pub mod Guards
pub mod Cleanup
pub mod Reuse
pub mod Footprint
pub mod BranchNames
pub mod Order
pub mod Passwords
pub mod Rotated
pub mod Statements
pub mod Written
pub mod Shown
pub mod Addresses
use cnpg_portal.Url.{postgres_url}
use cnpg_portal.Password.{base64_encode}
use cnpg_portal.Names.{dns1123_label}

pub record Deps : Type 0 where
  pub has_k8s : Bool
  pub pg : Option Conn
  pub workspace : Option Workspace

pub record Tenant : Type 0 where
  pub name : Text
  pub role : Text
  pub database : Text
  pub secret_name : Text
  pub database_url : Text
  pub owner : Text
  pub size_bytes : ℤ
  pub connections : ℤ
  pub last_backup : Text
  pub login : Bool
  pub create_db : Bool
  pub inherit : Bool
  pub connection_limit : ℤ

abbrev pub is_some {ℓ} : {A : Type ℓ} → Option A → Bool
is_some none = false
is_some (some a) = true

abbrev pub has_pg : Deps → Bool
has_pg d = is_some d.pg

-- no dependency is nil
abbrev pub is_complete : Deps → Bool
is_complete d = d.has_k8s && has_pg d && is_some d.workspace

-- d.K8s == nil || d.PG == nil || d.Workspace == nil
unfoldable pub all_deps : Text → Deps → Result (Conn × Workspace)
all_deps what d = elim d.has_k8s [
  | false ↦ err (message what)
  | true ↦ elim d.pg [
    | none ↦ err (message what)
    | some c ↦ elim d.workspace [ none ↦ err (message what) | some ws ↦ ok (c, ws) ]
  ]
]

-- d.PG == nil
unfoldable pub pg_dep : Text → Deps → Result Conn
pg_dep what d = elim d.pg [ none ↦ err (message what) | some c ↦ ok c ]

unfoldable pub service_host : Text → Text → Text
service_host service namespace =
    service ++ (codes "-rw." ++ (namespace ++ codes ".svc.cluster.local"))

unfoldable pub build_database_url : Text → Text → Text → Text → Text → Text
unfolding service_host
build_database_url service role password namespace db =
    postgres_url role password (service_host service namespace ++ codes ":5432") db

-- the tenant that a verb returns, which names everything after the app
unfoldable pub tenant_of : Workspace → Text → Text → Tenant
unfolding build_database_url
tenant_of ws app password = record {
  name = app;
  role = app;
  database = app;
  secret_name = secret_name ws app;
  database_url = build_database_url ws.service_name app password ws.namespace app;
  owner = [];
  size_bytes = pos 0;
  connections = pos 0;
  last_backup = [];
  login = false;
  create_db = false;
  inherit = false;
  connection_limit = pos 0;
}

unfoldable pub generate_password : World → Exec Text
generate_password w = annotate (wrapped (codes "rand")) (ask_text w (random_bytes 24)) >>= λ bytes.
    pure (base64_encode bytes)

-- tenant.K8sSecretName (internal/tenant/k8sname.go)
unfoldable pub k8s_secret_name : Text → Text
k8s_secret_name app = dns1123_label app ++ credentials_suffix
