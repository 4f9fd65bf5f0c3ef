-- ===== src/Web/Views.antt =====
-- internal/web/handlers.go: the handlers that read.
use cnpg_portal.Prelude.{
  false, true, Text, codes, ℕ, List, [], ◌∷◌, ◌++◌, Bool, ◌&&◌, Option, none, some, if◌then◌else◌,
  eq_text,
}
use cnpg_portal.Result.{wrapped, Error, Result, ok, err, err_tenant_not_found}
use cnpg_portal.World.{clock, ask_number, World, Exec}
use cnpg_portal.World.Chain.{outcome, pure, ◌>>=◌}
use cnpg_portal.Connstr.{Inputs}
use cnpg_portal.Tenant.{has_pg, Tenant}
use cnpg_portal.Web.{Request}
use cnpg_portal.Web.Pages.{
  tenant_list, tenant_detail, sees_as_admin, no_database, tenant_connections, login_of,
  bad_database, tenant_not_found, error_text, attachment, render_error, html, check, Reply,
  Handlers, Context,
}
use cnpg_portal.Tenant.Listing.{status, connections, read_credentials, list, Connection}
use cnpg_portal.Postgres.{pg_dump}
use cnpg_portal.Names.{database_name_safe}
use cnpg_portal.Web.Admins.{is_admin}

abbrev pub or_unknown : Text → Text
or_unknown [] = codes "unknown"
or_unknown (c ∷ s) = c ∷ s

unfoldable pub tenants_page : Handlers → Context → Result (List Tenant) → Exec Reply
tenants_page h x (err e) = pure (render_error x 500 (codes "Failed to list tenants") (error_text e))
tenants_page h x (ok tenants) =
    let login = or_unknown (login_of x) in
    pure (html 200 (tenant_list tenants login (is_admin h.admins login)))

unfoldable pub connections_page :
    Handlers → Context → Request → Result (List Connection) → Exec Reply
connections_page h x q (err e) =
    pure (render_error x 500 (codes "Failed to load connections") (error_text e))
connections_page h x q (ok rows) =
    pure (html 200 (tenant_connections q.name rows (sees_as_admin h x) q.msg))

-- the credentials, or none for every error
unfoldable pub shown_credentials : Result Inputs → Option Inputs
shown_credentials (err e) = none
shown_credentials (ok i) = some i

-- errors.Is(err, ErrTenantNotFound)
unfoldable pub is_tenant_not_found : Error → Bool
is_tenant_not_found err_tenant_not_found = true
is_tenant_not_found (wrapped t e) = is_tenant_not_found e
is_tenant_not_found _ = false

-- t.Owner == t.Name && t.Login
abbrev pub owns_itself : Tenant → Bool
owns_itself t = eq_text t.owner t.name && t.login

module _ (w : World) where
  unfoldable pub list_tenants : (ℕ → Text) → Handlers → Context → Exec Reply
  unfolding list tenants_page
  list_tenants show_time h x =
      check (has_pg h.deps) (no_database x) (outcome (list w show_time h.deps) >>= tenants_page h x)

  unfoldable pub detail_page : Handlers → Context → Request → Result Tenant → Exec Reply
  unfolding read_credentials shown_credentials
  detail_page h x q (err e) =
      if is_tenant_not_found e
      then pure (html 404 (tenant_not_found q.name))
      else pure (render_error x 500 (codes "Failed to load tenant") (error_text e))
  detail_page h x q (ok t) =
      if owns_itself t
      then (outcome (read_credentials w h.deps q.name) >>= λ c.
          pure (html 200 (tenant_detail t (shown_credentials c) (sees_as_admin h x))))
      else pure (html 200 (tenant_detail t none (sees_as_admin h x)))

  unfoldable pub show_tenant : (ℕ → Text) → Handlers → Context → Request → Exec Reply
  unfolding status detail_page
  show_tenant show_time h x q = check (database_name_safe q.name) (bad_database x) (
      check (has_pg h.deps) (no_database x)
        (outcome (status w show_time h.deps q.name) >>= detail_page h x q))

  unfoldable pub show_connections : Handlers → Context → Request → Exec Reply
  unfolding connections connections_page
  show_connections h x q = check (database_name_safe q.name) (bad_database x) (
      check (has_pg h.deps) (no_database x)
        (outcome (connections w h.deps q.name) >>= connections_page h x q))

  -- the status is 200 whatever the dump does: the header was sent before
  unfoldable pub dump_reply : Text → Result Text → Exec Reply
  dump_reply file (err e) = pure (html 200 (attachment file []))
  dump_reply file (ok dump) = pure (html 200 (attachment file dump))

  -- `stamp` is the time in the form 20060102T150405Z
  unfoldable pub dump_tenant : (ℕ → Text) → Handlers → Context → Request → Exec Reply
  unfolding pg_dump dump_reply
  dump_tenant stamp h x q = check (database_name_safe q.name) (bad_database x) (elim h.deps.pg [
    | none ↦ pure (no_database x)
    | some c ↦ ask_number w clock >>= λ now.
        outcome (pg_dump w c q.name)
        >>= dump_reply (q.name ++ (codes "-" ++ (stamp now ++ codes ".dump")))
  ])
