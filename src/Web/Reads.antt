-- ===== src/Web/Reads.antt =====
-- The calls of the handlers that show something (internal/web/handlers.go).
use cnpg_portal.Prelude.{Text, ℕ, List, [], All, none}
use cnpg_portal.Result.{Result, ok, err}
use cnpg_portal.World.{World, Call, Conn, History, exec, clock, Backup}
use cnpg_portal.World.Chain.{outcome, ◌>>=◌}
use cnpg_portal.World.Keeps.{
  Keeps-option, Keeps, Grows, keeps_rules, Keeps-pure, Keeps-lift, Keeps-if, Keeps-require,
  Keeps-bind, Keeps-ask_text, Keeps-ask_number,
}
use cnpg_portal.Postgres.{pg_dump, query_args, dump_args, or_superuser}
use cnpg_portal.Tenant.{Deps}
use cnpg_portal.Tenant.Listing.{Connection, status, connections, connections_sql}
use cnpg_portal.Web.{Request}
use cnpg_portal.Web.Pages.{Handlers, Context}
use cnpg_portal.Web.Forms.{
  cluster_dep, show_sync, show_restore, list_sync_sources, sync_form, restore_form, restore_page,
}
use cnpg_portal.Web.Views.{show_connections, dump_tenant, connections_page, dump_reply}
use cnpg_portal.Web.Metadata.{IsMetadata, All-grows, Keeps-query, Keeps-sorted_backups, Keeps-list}

-- what is seen of the metadata, a listing of the sessions, a dump, or the clock
pub data IsRead : Call → Type 0 where
  metadata : (c : Call) → IsMetadata c → IsRead c
  sessions :
      (c : Conn) (name : Text)
      → IsRead (exec c (query_args (or_superuser []) (connections_sql name)) none)
  dumped : (c : Conn) (name : Text) → IsRead (exec c (dump_args name) none)
  asked_clock : IsRead clock

abbrev pub Reads : History → Type 0
Reads h = All IsRead h

abbrev pub Reads-grows : Grows Reads IsRead
Reads-grows = All-grows IsRead

module _ (w : World) where
  Keeps-connections : (d : Deps) (name : Text) → Keeps Reads (connections w d name)
  unfolding connections
  Keeps-connections d name = Keeps-bind _ _ (Keeps-lift _) λ c.
      Keeps-bind _ _ (Keeps-require _ _)
        λ u. Keeps-bind _ _ (Keeps-query w metadata c _ (sessions c name)) λ rows. Keeps-pure _

  Keeps-dump : (c : Conn) (name : Text) → Keeps Reads (pg_dump w c name)
  unfolding pg_dump
  Keeps-dump c name = search (keeps_rules, Keeps-ask_text w Reads-grows, dumped)

  module _ (show_time : ℕ → Text) (h : Handlers) (x : Context) where
    Keeps-restore_form :
        (status : ℕ) (name msg : Text) (r : Result (List Backup))
        → Keeps Reads (restore_form w show_time x status name msg r)
    unfolding restore_form
    Keeps-restore_form status name msg (err e) = Keeps-pure _
    Keeps-restore_form status name msg (ok bs) = Keeps-pure _

    pub Keeps-restore_page :
        (status : ℕ) (name msg : Text) → Keeps Reads (restore_page w show_time h x status name msg)
    unfolding restore_page
    Keeps-restore_page status name msg =
        Keeps-option (cluster_dep h) _ _ (Keeps-pure _)
          λ ws. search (keeps_rules, Keeps-sorted_backups w metadata, Keeps-restore_form)

    Keeps-sources : (name : Text) → Keeps Reads (list_sync_sources w show_time h name)
    unfolding list_sync_sources
    Keeps-sources name = search (keeps_rules, Keeps-list w metadata)

    Keeps-sync_form :
        (status : ℕ) (name msg : Text) (r : Result (List Text))
        → Keeps Reads (sync_form w show_time x status name msg r)
    unfolding sync_form
    Keeps-sync_form status name msg (err e) = Keeps-pure _
    Keeps-sync_form status name msg (ok ts) = Keeps-pure _

    pub Keeps-sync_page :
        (status : ℕ) (name msg : Text)
        → Keeps Reads (
            outcome (list_sync_sources w show_time h name)
            >>= sync_form w show_time x status name msg)
    Keeps-sync_page status name msg = search (keeps_rules, Keeps-sources, Keeps-sync_form)

    module _ (q : Request) where
      Keeps-connections_page :
          (r : Result (List Connection)) → Keeps Reads (connections_page h x q r)
      unfolding connections_page
      Keeps-connections_page (err e) = Keeps-pure _
      Keeps-connections_page (ok rows) = Keeps-pure _

      Keeps-dump_reply : (file : Text) (r : Result Text) → Keeps Reads (dump_reply w file r)
      unfolding dump_reply
      Keeps-dump_reply file (err e) = Keeps-pure _
      Keeps-dump_reply file (ok t) = Keeps-pure _

      pub Keeps-show_connections : Keeps Reads (show_connections w h x q)
      unfolding show_connections
      Keeps-show_connections =
          search (keeps_rules, Keeps-connections, Keeps-connections_page) depth 12

      pub Keeps-dump_tenant : (stamp : ℕ → Text) → Keeps Reads (dump_tenant w stamp h x q)
      unfolding dump_tenant
      Keeps-dump_tenant stamp =
          Keeps-if _ _ _
            (Keeps-option h.deps.pg _ _ (Keeps-pure _) λ c.
              Keeps-bind _ _ (Keeps-ask_number w Reads-grows _ asked_clock)
                λ now. search (keeps_rules, Keeps-dump, Keeps-dump_reply))
            (Keeps-pure _)

      pub Keeps-show_sync : Keeps Reads (show_sync w show_time h x q)
      unfolding show_sync
      Keeps-show_sync = search (keeps_rules, Keeps-sync_page)

      pub Keeps-show_restore : Keeps Reads (show_restore w show_time h x q)
      unfolding show_restore
      Keeps-show_restore = search (keeps_rules, Keeps-restore_page)
