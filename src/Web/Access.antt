-- ===== src/Web/Access.antt =====
-- Who can make the server change something (internal/web/server.go).
use cnpg_portal.Prelude.{
  ◌≢◌, Text, codes, [], All, Bool, true, false, ◌&&◌, eq_text, Option, none, some, ◌≡◌, refl, inl,
  inr, sym, arith, Bool-cases, subst,
}
use cnpg_portal.World.{random_bytes, World}
use cnpg_portal.World.Keeps.{Keeps-if_cases, Keeps, Keeps-pure, Keeps-if}
use cnpg_portal.Sops.{Rules}
use cnpg_portal.ClusterYaml.Roles.{Yaml}
use cnpg_portal.Web.{Request}
use cnpg_portal.Web.Answers.{Platform}
use cnpg_portal.Web.Identity.{Net, Identity, Verdict, proceed, deny, authenticate}
use cnpg_portal.Web.Admins.{AdminList, is_admin}
use cnpg_portal.Web.Origin.{UrlLibrary, same_origin}
use cnpg_portal.Web.Pages.{Handlers, Context}
use cnpg_portal.Web.Reads.{
  Reads, IsRead, metadata, Keeps-show_connections, Keeps-dump_tenant, Keeps-show_sync,
  Keeps-show_restore,
}
use cnpg_portal.Web.Metadata.{identifier, IsMetadata, Keeps-list_tenants, Keeps-show_tenant}
use cnpg_portal.Web.Forms.{show_new_tenant, show_import_dump, show_branch, show_drop, show_rotate}
use cnpg_portal.Web.Routes.{
  Action, tenants, detail, dump, conns, new_form, new, import_form, import, terminate, branch_form,
  branch, sync_form, sync, drop_form, drop, restore_form, restore, rotate_form, rotate, backup,
  Route,
}
use cnpg_portal.Web.Server.{Router, Site, handlers_of, handle, run_route, serve}
use cnpg_portal.Web.Mounts.{is_view, is_open, is_proper, FindsMounts}
use cnpg_portal.Web.Middleware.{Keeps-gate, Keeps-serve}

-- The request may change something: its method is POST, the same-origin check passes it, and it
-- has the identity of an admin.
abbrev is_passed : Option AdminList → Bool → Option Text → Verdict → Bool
is_passed admins posted (some text) v = false
is_passed admins posted none (deny status text) = false
is_passed admins posted none (proceed i) = is_admin admins i.login && posted

unfoldable pub may_change : Net → UrlLibrary → Site → Request → Bool
may_change net urls site q =
    is_passed site.admins (eq_text q.method (codes "POST")) (same_origin urls site.allowed q)
      (authenticate net site.auth q)

-- the identity of the request, if it has one, is an admin's
abbrev pub is_admin_of : Option AdminList → Verdict → Bool
is_admin_of admins (deny status text) = false
is_admin_of admins (proceed i) = is_admin admins i.login

-- the check has passed and there is an identity
abbrev is_way : Option Text → Verdict → Bool
is_way (some text) v = false
is_way none (deny status text) = false
is_way none (proceed i) = true

unfoldable pub has_way : Net → UrlLibrary → Site → Request → Bool
has_way net urls site q = is_way (same_origin urls site.allowed q) (authenticate net site.auth q)

open_is_view : (a : Action) → is_open a ≡ true → is_view a ≢ false
open_is_view tenants o e = absurd (cc e)
open_is_view detail o e = absurd (cc e)
open_is_view _ o e = absurd (cc o)

module _ (w : World) (rules : Rules) (yaml : Yaml) (p : Platform) where
  Keeps-view :
      (a : Action) (h : Handlers) (x : Context) (q : Request)
      → is_view a ≡ true
      → Keeps Reads (handle w rules yaml p a h x q)
  unfolding handle show_new_tenant show_import_dump show_branch show_drop show_rotate
  Keeps-view tenants h x q v = Keeps-list_tenants w metadata p.show_time h x q
  Keeps-view detail h x q v = Keeps-show_tenant w metadata p.show_time h x q
  Keeps-view dump h x q v = Keeps-dump_tenant w p.show_time h x q p.file_stamp
  Keeps-view conns h x q v = Keeps-show_connections w p.show_time h x q
  Keeps-view new_form h x q v = Keeps-pure _
  Keeps-view import_form h x q v = Keeps-pure _
  Keeps-view branch_form h x q v = Keeps-if _ _ _ (Keeps-pure _) (Keeps-pure _)
  Keeps-view sync_form h x q v = Keeps-show_sync w p.show_time h x q
  Keeps-view drop_form h x q v = Keeps-if _ _ _ (Keeps-pure _) (Keeps-pure _)
  Keeps-view restore_form h x q v = Keeps-show_restore w p.show_time h x q
  Keeps-view rotate_form h x q v = Keeps-if _ _ _ (Keeps-pure _) (Keeps-pure _)
  Keeps-view new h x q v = absurd (cc v)
  Keeps-view import h x q v = absurd (cc v)
  Keeps-view terminate h x q v = absurd (cc v)
  Keeps-view branch h x q v = absurd (cc v)
  Keeps-view sync h x q v = absurd (cc v)
  Keeps-view drop h x q v = absurd (cc v)
  Keeps-view restore h x q v = absurd (cc v)
  Keeps-view rotate h x q v = absurd (cc v)
  Keeps-view backup h x q v = absurd (cc v)

  Keeps-open :
      (a : Action) (h : Handlers) (x : Context) (q : Request)
      → is_open a ≡ true
      → Keeps (All IsMetadata) (handle w rules yaml p a h x q)
  unfolding handle
  Keeps-open tenants h x q v = Keeps-list_tenants w (λ c m. m) p.show_time h x q
  Keeps-open detail h x q v = Keeps-show_tenant w (λ c m. m) p.show_time h x q
  Keeps-open _ h x q v = absurd (cc v)

  Keeps-route :
      (h : Handlers) (r : Route) (i : Identity) (rid : Text) (q : Request)
      → is_proper r ≡ true
      → (is_admin h.admins i.login && eq_text r.method (codes "POST")) ≡ false
      → Keeps Reads (run_route w rules yaml p r h (record { identity = some i; rid = rid }) q)
  unfolding run_route
  Keeps-route h r i rid q proper f = elim (Bool-cases (is_view r.action)) [
    | inl v ↦
        let k = Keeps-view r.action h (record { identity = some i; rid = rid }) q v in
        Keeps-if _ _ _ (Keeps-gate h i rid _ λ a. k) k
    | inr v ↦
        Keeps-if_cases r.gated _ _ (λ g. Keeps-gate h i rid _ λ a. absurd (ground arith))
          λ g. elim (Bool-cases (is_open r.action)) [
            | inl o ↦ absurd (open_is_view r.action o v)
            | inr o ↦ absurd (ground arith)
          ]
  ]

  Keeps-viewer :
      (h : Handlers) (r : Route) (i : Identity) (rid : Text) (q : Request)
      → is_proper r ≡ true
      → is_admin h.admins i.login ≡ false
      → Keeps
          (All IsMetadata)
          (run_route w rules yaml p r h (record { identity = some i; rid = rid }) q)
  unfolding run_route
  Keeps-viewer h r i rid q proper f =
      Keeps-if_cases r.gated _ _ (λ g. Keeps-gate h i rid _ λ a. absurd (cc (a, f)))
        λ g. Keeps-open r.action h _ q (ground arith)

  module _ (net : Net) (router : Router) (urls : UrlLibrary) (site : Site) (q : Request)
      (finds : FindsMounts router) where
    not_admin :
        (i : Identity)
        → same_origin urls site.allowed q ≡ none
        → authenticate net site.auth q ≡ proceed i
        → may_change net urls site q ≡ false
        → (is_admin site.admins i.login && eq_text q.method (codes "POST")) ≡ false
    unfolding may_change
    not_admin i pass e f =
        let post = eq_text q.method (codes "POST") in
        subst (λ v. is_passed site.admins post none v ≡ false) e
          (subst (λ o. is_passed site.admins post o (authenticate net site.auth q) ≡ false) pass f)

    -- For every request, every answer of the outside and every cluster: a request that is not a
    -- POST that passes the same-origin check with the identity of an admin makes the server do
    -- nothing but look: the calls are the three listings, a dump, a look at a Secret or at the
    -- backups, the clock and the bytes of a request ID. It asks of chi that it finds one of the
    -- mounts that it was given, for the request's method.
    pub serve-IsRead :
        may_change net urls site q ≡ false
        → All IsRead (serve w rules yaml p net router urls site q []).1
    serve-IsRead f =
        let keeps =
          Keeps-serve w rules yaml p IsRead (metadata _ identifier) net router urls site q finds
            λ t r i rid good here pass e. Keeps-route (handlers_of site t) r i rid q good (
              subst (λ m. (is_admin site.admins i.login && eq_text m (codes "POST")) ≡ false)
                (sym here) (not_admin i pass e f)) in
        keeps.at [] tt

    -- A request whose identity is not an admin's, or that has none, makes the server read no more
    -- than metadata, whatever its method and path are: the listing of the tenants, one of them, a
    -- Secret, the backups. No dump, no listing of sessions and no change is among the calls.
    pub serve-IsMetadata :
        is_admin_of site.admins (authenticate net site.auth q) ≡ false
        → All IsMetadata (serve w rules yaml p net router urls site q []).1
    serve-IsMetadata f =
        let keeps =
          Keeps-serve w rules yaml p IsMetadata identifier net router urls site q finds
            λ t r i rid good here pass e.
              Keeps-viewer (handlers_of site t) r i rid q good
                (subst (λ v. is_admin_of site.admins v ≡ false) e f) in
        keeps.at [] tt

    -- A request that gets no identity, or that the same-origin check refuses, makes the server call
    -- nothing outside but the random source, for its ID.
    pub serve-IsIdentifier :
        has_way net urls site q ≡ false
        → All (λ c. c ≡ random_bytes 8) (serve w rules yaml p net router urls site q []).1
    unfolding has_way
    serve-IsIdentifier f =
        let keeps =
          Keeps-serve w rules yaml p (λ c. c ≡ random_bytes 8) refl net router urls site q finds
            λ t r i rid good here pass e. absurd (
              cc (
                subst (λ v. is_way none v ≡ false) e
                  (subst (λ o. is_way o (authenticate net site.auth q) ≡ false) pass f))) in
        keeps.at [] tt
