-- ===== src/Web/Forms.antt =====
-- internal/web/handlers.go: the handlers that show a form.
use cnpg_portal.Prelude.{
  Text, codes, ℕ, List, [], ◌∷◌, ◌==◌, Option, none, some, if◌then◌else◌, eq_text,
}
use cnpg_portal.Result.{Result, ok, err}
use cnpg_portal.World.{World, Exec, Backup}
use cnpg_portal.World.Chain.{outcome, pure, ◌>>=◌}
use cnpg_portal.Tenant.{has_pg, Tenant}
use cnpg_portal.Web.{Request}
use cnpg_portal.Web.Pages.{
  no_database, restore_tenant_form, sync_tenant_form, branch_tenant_form, rotate_tenant_form,
  drop_tenant_form, bad_database, error_text, bad_tenant, new_tenant_form, import_dump_form,
  render_error, check, html, Reply, Handlers, Context,
}
use cnpg_portal.Cnpg.{sorted_backups, phase_completed}
use cnpg_portal.Workspace.{Workspace}
use cnpg_portal.Tenant.Listing.{all_but_pg, list}
use cnpg_portal.Names.{ident_safe, database_name_safe}
use cnpg_portal.Tenant.Clone.{default_branch_destination}

unfoldable pub show_new_tenant : Exec Reply
show_new_tenant = pure (html 200 (new_tenant_form [] []))

unfoldable pub show_import_dump : Exec Reply
show_import_dump = pure (html 200 (import_dump_form [] []))

unfoldable pub import_dump_error : Text → Text → Reply
import_dump_error prefill msg = html 400 (import_dump_form prefill msg)

unfoldable pub show_branch : Context → Request → Exec Reply
show_branch x q =
    check (database_name_safe q.name) (bad_database x)
      (pure (html 200 (branch_tenant_form q.name (default_branch_destination q.name) [])))

unfoldable pub show_drop : Context → Request → Exec Reply
show_drop x q =
    check (ident_safe q.name) (bad_tenant x) (pure (html 200 (drop_tenant_form q.name [])))

unfoldable pub show_rotate : Context → Request → Exec Reply
show_rotate x q =
    check (ident_safe q.name) (bad_tenant x) (pure (html 200 (rotate_tenant_form q.name [])))

-- the names of the listed tenants but one
unfoldable pub other_tenants : Text → List Tenant → List Text
other_tenants excluded [] = []
other_tenants excluded (t ∷ ts) =
    let rest = other_tenants excluded ts in if eq_text t.name excluded then rest else t.name ∷ rest

-- a completed backup with the time that is shown for it
unfoldable pub backup_choices : (ℕ → Text) → List Backup → List (Text × Text)
backup_choices show_time [] = []
backup_choices show_time (b ∷ bs) =
    let rest = backup_choices show_time bs in
    let shown_at = if b.stopped_at == 0 then b.started_at else b.stopped_at in
    if eq_text b.phase phase_completed then (b.name, show_time shown_at) ∷ rest else rest

-- h.Deps.K8s == nil || h.Deps.Workspace == nil
abbrev pub cluster_dep : Handlers → Option Workspace
cluster_dep h = all_but_pg h.deps

module _ (w : World) (show_time : ℕ → Text) where
  unfoldable pub list_sync_sources : Handlers → Text → Exec (List Text)
  unfolding other_tenants list
  list_sync_sources h excluded = do
    tenants ← list w show_time h.deps
    pure (other_tenants excluded tenants)

  -- the form with the sources, or the error of their listing
  unfoldable pub sync_form : Context → ℕ → Text → Text → Result (List Text) → Exec Reply
  sync_form x status dst msg (err e) =
      pure (render_error x 500 (codes "Failed to list source tenants") (error_text e))
  sync_form x status dst msg (ok sources) = pure (html status (sync_tenant_form dst sources msg))

  unfoldable pub show_sync : Handlers → Context → Request → Exec Reply
  unfolding list_sync_sources sync_form
  show_sync h x q = check (ident_safe q.name) (bad_tenant x) (
      check (has_pg h.deps) (no_database x)
        (outcome (list_sync_sources h q.name) >>= sync_form x 200 q.name []))

  unfoldable pub restore_form : Context → ℕ → Text → Text → Result (List Backup) → Exec Reply
  unfolding backup_choices
  restore_form x status app msg (err e) =
      pure (render_error x 500 (codes "Failed to list backups") (error_text e))
  restore_form x status app msg (ok backups) =
      pure (html status (restore_tenant_form app (backup_choices show_time backups) msg))

  unfoldable pub restore_page : Handlers → Context → ℕ → Text → Text → Exec Reply
  unfolding restore_form
  restore_page h x status app msg = elim (cluster_dep h) [
    | none ↦ pure (render_error x 503 (codes "dependencies not configured") msg)
    | some ws ↦
        outcome (sorted_backups w ws.namespace ws.cluster_name) >>= restore_form x status app msg
  ]

  -- `restoreTemporarilyDisabled` is false
  unfoldable pub show_restore : Handlers → Context → Request → Exec Reply
  unfolding restore_page
  show_restore h x q = check (ident_safe q.name) (bad_tenant x) (restore_page h x 200 q.name [])
