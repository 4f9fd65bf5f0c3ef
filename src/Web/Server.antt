-- ===== src/Web/Server.antt =====
-- internal/web/server.go: a request from the first middleware to its handler. The library's router
-- is a parameter, as are its answers where no route fits and those of the metrics.
use cnpg_portal.Prelude.{Text, codes, ℕ, List, ◌++◌, Option, none, some, if◌then◌else◌}
use cnpg_portal.World.{World, Exec}
use cnpg_portal.World.Chain.{pure, ◌>>=◌}
use cnpg_portal.Sops.{Rules}
use cnpg_portal.ClusterYaml.Roles.{Yaml}
use cnpg_portal.Web.{Request}
use cnpg_portal.Web.Identity.{Net, Auth, Identity, proceed, deny, authenticate}
use cnpg_portal.Web.Admins.{AdminList, is_admin}
use cnpg_portal.Web.Origin.{UrlLibrary, same_origin}
use cnpg_portal.Web.Registry.{ClusterTarget, ClusterRegistry}
use cnpg_portal.Web.RequestId.{request_id}
use cnpg_portal.Web.Pages.{Reply, html, plain, redirect, Handlers, Context}
use cnpg_portal.Web.Answers.{Platform}
use cnpg_portal.Web.Forms.{
  show_new_tenant, show_import_dump, show_branch, show_drop, show_rotate, show_sync, show_restore,
}
use cnpg_portal.Web.Views.{list_tenants, show_tenant, show_connections, dump_tenant}
use cnpg_portal.Web.Submits.{
  submit_new_tenant, submit_import_dump, submit_branch, submit_sync, submit_drop, submit_rotate,
  submit_restore, submit_terminate, submit_backup,
}
use cnpg_portal.Web.Routes.{
  Action, tenants, detail, dump, conns, new_form, new, import_form, import, terminate, branch_form,
  branch, sync_form, sync, drop_form, drop, restore_form, restore, rotate_form, rotate, backup,
  Route, Endpoint, health, metrics, home, page, Mount, base_path_of, mounts,
}

-- `find` is chi's choice of a route
pub record Router : Type 0 where
  pub find : List Mount → Request → Option Mount
  pub unrouted : Request → Reply
  pub metrics_reply : Reply

-- what RouterClusters is given
pub record Site : Type 0 where
  pub auth : Auth
  pub admins : Option AdminList
  pub allowed : List Text
  pub registry : ClusterRegistry

-- http.Error
abbrev pub plain_reply : ℕ → Text → Reply
plain_reply status text = html status (plain text)

-- RequireAdmin
unfoldable pub require_admin : Option AdminList → Context → Exec Reply → Exec Reply
require_admin admins x next = elim x.identity [
  | none ↦ pure (plain_reply 500 (codes "identity middleware not configured"))
  | some i ↦
      if is_admin admins i.login
      then next
      else pure (
          plain_reply 403
            (codes "admin required: " ++ (i.login ++ codes " is not on the admin allow-list")))
]

-- IdentityMiddleware
unfoldable pub with_identity : Net → Auth → Request → (Identity → Exec Reply) → Exec Reply
unfolding authenticate
with_identity net auth q next = elim (authenticate net auth q) [
  | proceed i ↦ next i
  | deny status text ↦ pure (plain_reply status text)
]

abbrev pub handlers_of : Site → ClusterTarget → Handlers
handlers_of site t = record { deps = t.deps; admins = site.admins; base_path = base_path_of t.id }

module _ (w : World) (rules : Rules) (yaml : Yaml) (p : Platform) where
  unfoldable pub handle : Action → Handlers → Context → Request → Exec Reply
  unfolding list_tenants show_tenant show_connections dump_tenant show_new_tenant show_import_dump
      show_branch show_drop show_rotate show_sync show_restore submit_new_tenant submit_import_dump
      submit_branch submit_sync submit_drop submit_rotate submit_restore submit_terminate
      submit_backup
  handle tenants h x q = list_tenants w p.show_time h x
  handle detail h x q = show_tenant w p.show_time h x q
  handle dump h x q = dump_tenant w p.file_stamp h x q
  handle conns h x q = show_connections w h x q
  handle new_form h x q = show_new_tenant
  handle new h x q = submit_new_tenant w rules yaml p h x q
  handle import_form h x q = show_import_dump
  handle import h x q = submit_import_dump w rules yaml p h x q
  handle terminate h x q = submit_terminate w rules yaml p h x q
  handle branch_form h x q = show_branch x q
  handle branch h x q = submit_branch w rules yaml p h x q
  handle sync_form h x q = show_sync w p.show_time h x q
  handle sync h x q = submit_sync w rules yaml p h x q
  handle drop_form h x q = show_drop x q
  handle drop h x q = submit_drop w rules yaml p h x q
  handle restore_form h x q = show_restore w p.show_time h x q
  handle restore h x q = submit_restore w rules yaml p h x q
  handle rotate_form h x q = show_rotate x q
  handle rotate h x q = submit_rotate w rules yaml p h x q
  handle backup h x q = submit_backup w rules yaml p h x q

  -- a route with its gate
  unfoldable pub run_route : Route → Handlers → Context → Request → Exec Reply
  unfolding require_admin handle
  run_route r h x q =
      if r.gated then require_admin h.admins x (handle r.action h x q) else handle r.action h x q

  abbrev pub home_reply : Site → Reply
  home_reply site = html 303 (redirect (base_path_of site.registry.default_id ++ codes "/"))

  module _ (net : Net) (router : Router) where
    -- the probes and the metrics are outside of the identity
    unfoldable pub run_endpoint : Site → Text → Request → Endpoint → Exec Reply
    unfolding with_identity run_route
    run_endpoint site rid q health = pure (html 200 (plain (codes "ok\n")))
    run_endpoint site rid q metrics = pure router.metrics_reply
    run_endpoint site rid q home = with_identity net site.auth q λ i. pure (home_reply site)
    run_endpoint site rid q (page t r) =
        with_identity net site.auth q
          λ i. run_route r (handlers_of site t) (record { identity = some i; rid = rid }) q

    unfoldable pub dispatch : Site → Text → Request → Exec Reply
    unfolding run_endpoint mounts
    dispatch site rid q = elim (router.find (mounts site.registry) q) [
      | none ↦ pure (router.unrouted q)
      | some m ↦ run_endpoint site rid q m.endpoint
    ]

    unfoldable pub serve : UrlLibrary → Site → Request → Exec Reply
    unfolding request_id same_origin dispatch
    serve urls site q = request_id w q >>= λ rid. elim (same_origin urls site.allowed q) [
      | some text ↦ pure (plain_reply 403 text)
      | none ↦ dispatch site rid q
    ]
