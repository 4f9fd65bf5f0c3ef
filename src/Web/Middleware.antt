-- ===== src/Web/Middleware.antt =====
-- A request's way through the middleware (internal/web/server.go).
use cnpg_portal.Prelude.{All-at, Text, All, true, Option, none, some, ◌≡◌, refl}
use cnpg_portal.World.{random_bytes, Call, World, Exec}
use cnpg_portal.World.Chain.{pure}
use cnpg_portal.World.Keeps.{
  Keeps-if_cases, Keeps, Keeps-pure, Keeps-bind, Keeps-if, Keeps-outcome, Keeps-ask_text,
}
use cnpg_portal.Sops.{Rules}
use cnpg_portal.ClusterYaml.Roles.{Yaml}
use cnpg_portal.Web.{Request}
use cnpg_portal.Web.Answers.{Platform}
use cnpg_portal.Web.Identity.{Net, Identity, Verdict, proceed, deny, authenticate}
use cnpg_portal.Web.Admins.{is_admin}
use cnpg_portal.Web.Origin.{UrlLibrary, same_origin}
use cnpg_portal.Web.RequestId.{request_id, sanitize_request_id, random_id}
use cnpg_portal.Web.Registry.{ClusterTarget}
use cnpg_portal.Web.Pages.{Reply, Handlers}
use cnpg_portal.Web.Metadata.{All-grows}
use cnpg_portal.Web.Routes.{Route, Endpoint, health, metrics, home, page, Mount, mounts}
use cnpg_portal.Web.Server.{
  plain_reply, Router, Site, handlers_of, run_route, require_admin, with_identity, run_endpoint,
  dispatch, serve,
}
use cnpg_portal.Web.Mounts.{IsProper, is_proper, mounts-IsProper, FindsMounts}

module _ {Allowed : Call → Type 0} where
  -- the gate of the admins
  pub Keeps-gate :
      (h : Handlers) (i : Identity) (rid : Text) (m : Exec Reply)
      → (is_admin h.admins i.login ≡ true → Keeps (All Allowed) m)
      → Keeps (All Allowed) (require_admin h.admins (record { identity = some i; rid = rid }) m)
  unfolding require_admin
  Keeps-gate h i rid m k = Keeps-if_cases _ _ _ k λ f. Keeps-pure _

module _ (w : World) (rules : Rules) (yaml : Yaml) (p : Platform) (Allowed : Call → Type 0)
    (seen : Allowed (random_bytes 8)) where
  Keeps-random_id : Keeps (All Allowed) (random_id w)
  unfolding random_id
  Keeps-random_id =
      Keeps-bind _ _ (Keeps-outcome _ (Keeps-ask_text w (All-grows Allowed) _ seen))
        λ r. Keeps-pure _

  Keeps-request_id : (q : Request) → Keeps (All Allowed) (request_id w q)
  unfolding request_id sanitize_request_id
  Keeps-request_id q =
      Keeps-if _ _ _ Keeps-random_id (Keeps-if _ _ _ Keeps-random_id (Keeps-pure _))

  module _ (net : Net) (router : Router) (urls : UrlLibrary) (site : Site) (q : Request)
      (finds : FindsMounts router) where
    -- what every page keeps that the request may reach
    abbrev pub PagesKeep : Type 0
    PagesKeep =
        (t : ClusterTarget) (r : Route) (i : Identity) (rid : Text)
        → is_proper r ≡ true
        → r.method ≡ q.method
        → same_origin urls site.allowed q ≡ none
        → authenticate net site.auth q ≡ proceed i
        → Keeps (All Allowed) (
            run_route w rules yaml p r (handlers_of site t)
              (record { identity = some i; rid = rid }) q)

    Keeps-identity :
        (next : Identity → Exec Reply)
        → ((i : Identity) → authenticate net site.auth q ≡ proceed i → Keeps (All Allowed) (next i))
        → Keeps (All Allowed) (with_identity net site.auth q next)
    unfolding with_identity
    Keeps-identity next k = go (authenticate net site.auth q) refl
      where
        go :
            (v : Verdict)
            → authenticate net site.auth q ≡ v
            → Keeps
                (All Allowed)
                (elim v [ proceed i ↦ next i | deny s t ↦ pure (plain_reply s t) ])
        go (proceed i) e = k i e
        go (deny s t) e = Keeps-pure _

    Keeps-endpoint :
        (rid : Text) (m : Mount)
        → IsProper m
        → ((method : Text) → m.method ≡ some method → method ≡ q.method)
        → same_origin urls site.allowed q ≡ none
        → PagesKeep
        → Keeps (All Allowed) (run_endpoint w rules yaml p net router site rid q m.endpoint)
    unfolding run_endpoint
    Keeps-endpoint rid m proper same pass pages = go m.endpoint proper
      where
        go :
            (e : Endpoint)
            → IsProper (record m { endpoint = e })
            → Keeps (All Allowed) (run_endpoint w rules yaml p net router site rid q e)
        go health _ = Keeps-pure _
        go metrics _ = Keeps-pure _
        go home _ = Keeps-identity _ λ i e. Keeps-pure _
        go (page t r) (method, good) =
            let here = same r.method method in
            Keeps-identity _ λ i e. pages t r i rid good here pass e

    Keeps-dispatch :
        (rid : Text)
        → same_origin urls site.allowed q ≡ none
        → PagesKeep
        → Keeps (All Allowed) (dispatch w rules yaml p net router site rid q)
    unfolding dispatch
    Keeps-dispatch rid pass pages = go (router.find (mounts site.registry) q) refl
      where
        go :
            (o : Option Mount)
            → router.find (mounts site.registry) q ≡ o
            → Keeps (All Allowed) (elim o [
              | none ↦ pure (router.unrouted q)
              | some m ↦ run_endpoint w rules yaml p net router site rid q m.endpoint
            ])
        go none e = Keeps-pure _
        go (some m) e =
            Keeps-endpoint rid m
              (All-at IsProper _ (mounts-IsProper site.registry) (finds _ q m (q.method) e).0)
              (λ method g. (finds _ q m method e).1 g) pass pages

    pub Keeps-serve : PagesKeep → Keeps (All Allowed) (serve w rules yaml p net router urls site q)
    unfolding serve
    Keeps-serve pages =
        Keeps-bind _ _ (Keeps-request_id q) λ rid. go rid (same_origin urls site.allowed q) refl
      where
        go :
            (rid : Text) (o : Option Text)
            → same_origin urls site.allowed q ≡ o
            → Keeps (All Allowed) (elim o [
              | some text ↦ pure (plain_reply 403 text)
              | none ↦ dispatch w rules yaml p net router site rid q
            ])
        go rid (some t) e = Keeps-pure _
        go rid none e = Keeps-dispatch rid e pages
