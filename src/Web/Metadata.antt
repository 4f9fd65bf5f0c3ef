-- ===== src/Web/Metadata.antt =====
-- The calls of the two pages that every identity may see (internal/web/handlers.go).
use cnpg_portal.Prelude.{Text, ℕ, List, [], All, none}
use cnpg_portal.Result.{Result, ok, err}
use cnpg_portal.World.{World, Call, Conn, exec, get_secret, list_backups, random_bytes}
use cnpg_portal.World.Keeps.{
  Keeps-option, Keeps, Grows, keeps_rules, Keeps-pure, Keeps-lift, Keeps-annotate, Keeps-outcome,
  Keeps-if, Keeps-require, Keeps-bind, Keeps-ask_text, Keeps-ask_secret, Keeps-ask_backups,
}
use cnpg_portal.Postgres.{exec_in, run_query, query_args, or_superuser}
use cnpg_portal.Cnpg.{sorted_backups}
use cnpg_portal.Tenant.{Tenant, Deps}
use cnpg_portal.Tenant.Listing.{
  all_but_pg, list, status, read_credentials, last_cluster_backup, list_sql, status_sql,
}
use cnpg_portal.Web.{Request}
use cnpg_portal.Web.Pages.{Handlers, Context}
use cnpg_portal.Web.Views.{list_tenants, show_tenant, tenants_page, detail_page}

-- a listing of the tenants, a look at one of them, at a Secret or at the backups, or the eight
-- random bytes of a request ID
pub data IsMetadata : Call → Type 0 where
  listing : (c : Conn) → IsMetadata (exec c (query_args (or_superuser []) list_sql) none)
  row :
      (c : Conn) (name : Text)
      → IsMetadata (exec c (query_args (or_superuser []) (status_sql name)) none)
  seen_secret : (namespace name : Text) → IsMetadata (get_secret namespace name)
  seen_backups : (namespace : Text) → IsMetadata (list_backups namespace)
  identifier : IsMetadata (random_bytes 8)

pub All-grows : (Allowed : Call → Type 0) → Grows (All Allowed) Allowed
All-grows Allowed c i h a = (i, a)

module _ {Allowed : Call → Type 0} (w : World) (seen : (c : Call) → IsMetadata c → Allowed c) where
  pub Keeps-query :
      (c : Conn) (sql : Text)
      → Allowed (exec c (query_args (or_superuser []) sql) none)
      → Keeps (All Allowed) (run_query w c [] sql)
  unfolding run_query exec_in
  Keeps-query c sql i =
      Keeps-bind _ _ (Keeps-annotate _ _ (Keeps-ask_text w (All-grows Allowed) _ i))
        λ out. Keeps-pure _

  pub Keeps-sorted_backups :
      (namespace cluster : Text) → Keeps (All Allowed) (sorted_backups w namespace cluster)
  unfolding sorted_backups
  Keeps-sorted_backups namespace cluster =
      search (keeps_rules, Keeps-ask_backups w (All-grows Allowed), seen, seen_backups)

  module _ (show_time : ℕ → Text) (d : Deps) where
    Keeps-last : Keeps (All Allowed) (last_cluster_backup w show_time d)
    unfolding last_cluster_backup
    Keeps-last =
        Keeps-option (all_but_pg d) _ _ (Keeps-pure _)
          λ ws. search (keeps_rules, Keeps-sorted_backups)

    pub Keeps-list : Keeps (All Allowed) (list w show_time d)
    unfolding list
    Keeps-list = Keeps-bind _ _ (Keeps-lift _) λ c.
        Keeps-bind _ _ (Keeps-query c _ (seen _ (listing c)))
          λ rows. Keeps-bind _ _ Keeps-last λ last. Keeps-pure _

    Keeps-status : (name : Text) → Keeps (All Allowed) (status w show_time d name)
    unfolding status
    Keeps-status name = Keeps-bind _ _ (Keeps-lift _) λ c. Keeps-bind _ _ (Keeps-require _ _) λ u.
        Keeps-bind _ _ (Keeps-query c _ (seen _ (row c name)))
          λ rows. Keeps-bind _ _ (Keeps-lift _) λ t. Keeps-bind _ _ Keeps-last λ last. Keeps-pure _

  Keeps-credentials : (d : Deps) (name : Text) → Keeps (All Allowed) (read_credentials w d name)
  unfolding read_credentials
  Keeps-credentials d name =
      search (keeps_rules, Keeps-ask_secret w (All-grows Allowed), seen, seen_secret) depth 12

  module _ (show_time : ℕ → Text) (h : Handlers) (x : Context) where
    Keeps-tenants_page : (r : Result (List Tenant)) → Keeps (All Allowed) (tenants_page h x r)
    unfolding tenants_page
    Keeps-tenants_page (err e) = Keeps-pure _
    Keeps-tenants_page (ok ts) = Keeps-pure _

    module _ (q : Request) where
      Keeps-detail_page : (r : Result Tenant) → Keeps (All Allowed) (detail_page w h x q r)
      unfolding detail_page
      Keeps-detail_page (err e) = Keeps-if _ _ _ (Keeps-pure _) (Keeps-pure _)
      Keeps-detail_page (ok t) =
          Keeps-if _ _ _
            (Keeps-bind _ _ (Keeps-outcome _ (Keeps-credentials _ _)) λ c. Keeps-pure _)
            (Keeps-pure _)

      pub Keeps-list_tenants : Keeps (All Allowed) (list_tenants w show_time h x)
      unfolding list_tenants
      Keeps-list_tenants = search (keeps_rules, Keeps-list, Keeps-tenants_page)

      pub Keeps-show_tenant : Keeps (All Allowed) (show_tenant w show_time h x q)
      unfolding show_tenant
      Keeps-show_tenant = search (keeps_rules, Keeps-status, Keeps-detail_page) depth 12
