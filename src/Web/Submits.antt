-- ===== src/Web/Submits.antt =====
-- internal/web/handlers.go: the handlers that change something. The audit log is left out.
use cnpg_portal.Prelude.{
  ◌||◌, pos, Text, codes, ℕ, [], ◌∷◌, ◌++◌, true, not, Option, none, some, if◌then◌else◌, eq_text,
  is_empty,
}
use cnpg_portal.Result.{Result, ok, err}
use cnpg_portal.World.{World, Exec, Backup}
use cnpg_portal.World.Chain.{outcome, pure, ◌>>=◌}
use cnpg_portal.Sops.{Rules}
use cnpg_portal.ClusterYaml.Roles.{Yaml}
use cnpg_portal.Tenant.{has_pg}
use cnpg_portal.Web.{Request}
use cnpg_portal.Web.Pages.{
  database_rule, sync_tenant_done, branch_tenant_created, route_path, new_tenant_created,
  branch_tenant_form, no_database, drop_tenant_done, rotate_tenant_done, rotate_tenant_form,
  new_tenant_form, drop_tenant_form, redirect, restore_tenant_done, error_text, tenant_rule,
  bad_tenant, bad_database, render_error, html, check, with_form, Reply, Handlers, Context,
}
use cnpg_portal.Strings.{to_lower}
use cnpg_portal.Names.{database_name_safe, ident_safe}
use cnpg_portal.Strings.Decimal.{itoa}
use cnpg_portal.Web.Forms.{
  sync_form, list_sync_sources, cluster_dep, restore_page, import_dump_error,
}
use cnpg_portal.Tenant.Listing.{terminate_connection}
use cnpg_portal.Cnpg.{trigger, wait_backup}
use cnpg_portal.Tenant.Provision.{provision}
use cnpg_portal.Tenant.Import.{import_from_dump}
use cnpg_portal.Tenant.Clone.{sync, default_branch_destination, branch}
use cnpg_portal.Tenant.Drop.{drop_tenant}
use cnpg_portal.Tenant.Rotate.{rotate}
use cnpg_portal.Tenant.Restore.{restore_from_backup}
use cnpg_portal.Workspace.{Workspace}
use cnpg_portal.Url.{query_escape}
use cnpg_portal.Web.Answers.{
  Platform, is_custom_dump, field, branch_fault, sync_fault, positive_pid, backup_result, waited,
  answer_with, answer_tenant, confirm_rule, with_deps,
}

module _ (w : World) (rules : Rules) (yaml : Yaml) (p : Platform) where
  unfoldable pub submit_new_tenant : Handlers → Context → Request → Exec Reply
  unfolding with_form provision answer_with
  submit_new_tenant h x q = with_form x q λ form.
      let app = field form (codes "app") in
      check (ident_safe app) (html 400 (new_tenant_form app tenant_rule)) (
        with_deps h x (
          outcome (provision w rules yaml h.deps app)
          >>= answer_with x (codes "Failed to create tenant") new_tenant_created))

  -- what follows the checks of the name and of the dependencies
  unfoldable pub import_upload : Handlers → Context → Text → Option Text → Exec Reply
  unfolding import_dump_error is_custom_dump import_from_dump answer_tenant
  import_upload h x app none =
      pure (import_dump_error app (codes "Missing dump file field \"dump\"."))
  import_upload h x app (some dump) =
      check (is_custom_dump dump)
        (import_dump_error app (
          codes
            "Only PostgreSQL custom-format dumps created with pg_dump -Fc are accepted. Plain SQL imports are disabled in the web UI."))
        (outcome (import_from_dump w rules yaml h.deps app dump)
          >>= answer_tenant x (codes "Import failed") new_tenant_created)

  unfoldable pub submit_import_dump : Handlers → Context → Request → Exec Reply
  unfolding import_upload import_dump_error
  submit_import_dump h x q = elim q.multipart [
    | err e ↦ pure (
        import_dump_error [] (
          codes
            "Could not read upload (too large or invalid multipart). Max size is 256 MiB; increase --read-timeout for slow connections."))
    | ok form ↦
        let app = field form (codes "app") in
        check (ident_safe app) (import_dump_error app tenant_rule)
          (with_deps h x (import_upload h x app q.upload))
  ]

  unfoldable pub submit_branch : Handlers → Context → Request → Exec Reply
  unfolding with_form branch answer_tenant branch_fault
  submit_branch h x q =
      let src = q.name in
      check (database_name_safe src)
        (render_error x 400 (codes "invalid source database") database_rule)
        (with_form x q λ form.
          let dst = to_lower (field form (codes "dst")) in
          check (is_empty (branch_fault src dst))
            (html 400
              (branch_tenant_form src (default_branch_destination src) (branch_fault src dst)))
            (with_deps h x (
              outcome (branch w rules yaml h.deps src dst)
              >>= answer_tenant x (codes "Failed to branch tenant") (branch_tenant_created src))))

  unfoldable pub submit_sync : Handlers → Context → Request → Exec Reply
  unfolding with_form sync answer_with sync_fault list_sync_sources sync_form
  submit_sync h x q =
      let dst = q.name in
      check (ident_safe dst) (render_error x 400 (codes "invalid destination tenant") tenant_rule) (
        with_form x q λ form.
          let src = to_lower (field form (codes "src")) in
          let fault = sync_fault src dst (field form (codes "confirm")) in
          if is_empty fault
          then with_deps h x (
              outcome (sync w h.deps src dst true)
              >>= answer_with x (codes "Failed to sync tenant") λ u. sync_tenant_done src dst)
          else outcome (list_sync_sources w p.show_time h dst)
            >>= sync_form w p.show_time x 400 dst fault)

  unfoldable pub submit_drop : Handlers → Context → Request → Exec Reply
  unfolding with_form drop_tenant answer_with
  submit_drop h x q =
      let app = q.name in
      check (ident_safe app) (bad_tenant x) (
        with_form x q λ form.
          check (eq_text (field form (codes "confirm")) app)
            (html 400 (drop_tenant_form app confirm_rule))
            (with_deps h x (
              outcome (drop_tenant w yaml h.deps app true)
              >>= answer_with x (codes "Failed to drop tenant") λ u. drop_tenant_done app)))

  unfoldable pub submit_rotate : Handlers → Context → Request → Exec Reply
  unfolding with_form rotate answer_with
  submit_rotate h x q =
      let app = q.name in
      check (ident_safe app) (bad_tenant x) (
        with_form x q λ form.
          check (eq_text (field form (codes "confirm")) app)
            (html 400 (rotate_tenant_form app confirm_rule))
            (with_deps h x (
              outcome (rotate w rules h.deps app true)
              >>= answer_with x (codes "Failed to rotate credentials") rotate_tenant_done)))

  -- the optional time of the form
  unfoldable pub target_time : Text → Result (Option Text)
  target_time [] = ok none
  target_time (c ∷ s) = elim (p.parse_time (c ∷ s)) [ err e ↦ err e | ok t ↦ ok (some t) ]

  -- restoreFormWithError
  abbrev pub restore_fault : Handlers → Context → Text → Text → Exec Reply
  restore_fault h x app msg = restore_page w p.show_time h x 400 app msg

  unfoldable pub restored : Handlers → Context → Text → Result (Unit {0}) → Exec Reply
  unfolding restore_page
  restored h x app (err e) = restore_fault h x app (error_text e)
  restored h x app (ok u) = pure (html 200 (restore_tenant_done app))

  -- what follows the check of the confirmation
  unfoldable pub start_restore : Handlers → Context → Text → (Text → Text) → Exec Reply
  unfolding target_time restored restore_page restore_from_backup
  start_restore h x app form =
      let name = field form (codes "backup") in
      if is_empty name || not (p.ok_name name)
      then restore_fault h x app (codes "Select a valid backup.")
      else elim (target_time (field form (codes "target_time"))) [
        | err e ↦
            restore_fault h x app (codes "target_time must be RFC3339 (e.g. 2006-01-02T15:04:05Z).")
        | ok t ↦ with_deps h x (
            outcome (restore_from_backup w p.ok_name p.pod_ticks p.probe_ticks h.deps app name t)
            >>= restored h x app)
      ]

  unfoldable pub submit_restore : Handlers → Context → Request → Exec Reply
  unfolding with_form start_restore restore_page
  submit_restore h x q =
      let app = q.name in
      check (ident_safe app) (bad_tenant x) (
        with_form x q λ form.
          if eq_text (field form (codes "confirm")) app
          then start_restore h x app form
          else restore_fault h x app confirm_rule)

  unfoldable pub terminated : Handlers → Context → Request → ℕ → Result (Unit {0}) → Exec Reply
  terminated h x q pid (err e) =
      pure (render_error x 500 (codes "Failed to terminate connection") (error_text e))
  terminated h x q pid (ok u) = pure (
      html 303 (
        redirect (
          route_path h (codes "/tenant/" ++ (q.name ++ codes "/conns"))
          ++ (codes "?msg=" ++ query_escape (codes "terminated pid " ++ itoa pid)))))

  unfoldable pub submit_terminate : Handlers → Context → Request → Exec Reply
  unfolding positive_pid terminated terminate_connection
  submit_terminate h x q =
      check (database_name_safe q.name) (bad_database x) (elim (positive_pid q.pid) [
        | none ↦
            pure
              (render_error x 400 (codes "invalid pid") (codes "PID must be a positive integer."))
        | some pid ↦
            check (has_pg h.deps) (no_database x)
              (outcome (terminate_connection w h.deps q.name (pos pid)) >>= terminated h x q pid)
      ])

  unfoldable pub triggered : Handlers → Request → Workspace → Result Backup → Exec Reply
  unfolding wait_backup waited backup_result
  triggered h q ws (err e) = pure (backup_result h q none (error_text e))
  triggered h q ws (ok b) =
      outcome (wait_backup w p.backup_ticks ws.namespace b.name) >>= waited h q ws.namespace

  unfoldable pub submit_backup : Handlers → Context → Request → Exec Reply
  unfolding trigger triggered backup_result
  submit_backup h x q = elim (cluster_dep h) [
    | none ↦ pure (backup_result h q none (codes "K8s/workspace deps not configured"))
    | some ws ↦ outcome (trigger w ws.namespace ws.cluster_name (codes "ui")) >>= triggered h q ws
  ]
