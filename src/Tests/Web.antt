-- ===== src/Tests/Web.antt =====
-- The web server, on the requests of Tests/Server.
use cnpg_portal.Prelude.{
  if◌then◌else◌, subst, Text, codes, List, [], ◌∷◌, map, All, false, not, ◌&&◌, ◌||◌, none, some,
  eq_text, ◌≡◌, refl, ◌↔◌, arith, is_empty,
}
use cnpg_portal.Web.Routes.{drop, rotate as rotate_route}
use cnpg_portal.Web.{Request}
use cnpg_portal.Tenant.Rotate.{rotate}
use cnpg_portal.Web.Pages.{Handlers, Context}
use cnpg_portal.Result.{ok}
use cnpg_portal.World.{World, read_file, random_bytes}
use cnpg_portal.Tests.Fixtures.{app, outside, rules, yaml}
use cnpg_portal.Tests.Server.{
  request, platform, net, url, urls, target, server, router, router-FindsMounts,
}
use cnpg_portal.Tests.Fixtures.{app}
use cnpg_portal.Web.Access.{serve-IsRead, serve-IsMetadata, serve-IsIdentifier, may_change, has_way}
use cnpg_portal.Web.Metadata.{IsMetadata}
use cnpg_portal.Web.Reads.{IsRead}
use cnpg_portal.Web.Server.{serve, handle}
use cnpg_portal.Web.Origin.{canonical_url, same_origin}
use cnpg_portal.Web.Pages.{route_path}
use cnpg_portal.Web.Identity.{is_tailscale_cgnat, authenticate}
use mathlib.Core.List.{Memᴰ}
use cnpg_portal.Web.Scanned.{Stands, scan_admins-iff_Stands}
use cnpg_portal.Web.Reloading.{start, IsReading, Reachable-IsReading}
use cnpg_portal.Web.Admins.{scan_admins, new_admin_list, AdminList, is_admin}
use cnpg_portal.Web.Refusals.{IsBadRequest, handle-IsBadRequest}
use cnpg_portal.Web.Targets.{IsRouted, new_cluster_registry-IsRouted}
use cnpg_portal.Web.Origins.{IsSameOrigin, canonical_url_injective}
use cnpg_portal.Web.Cgnat.{in_prefix, is_tailscale_cgnat-eq}
use cnpg_portal.Web.Granted.{is_login, serve_site-is_admin}
use cnpg_portal.Web.Config.{serve_site, site_of, Config}
use cnpg_portal.Web.Registry.{new_cluster_registry, find_target, ClusterTarget, shown}
use cnpg_portal.World.Chain.{outcome, ◌>>=◌}
use cnpg_portal.Url.Escaped.{bytes_of}
use cnpg_portal.Names.{ident_safe}
use cnpg_portal.Strings.Decimal.{is_digit}
use cnpg_portal.Url.{utf8}
use cnpg_portal.Strings.{has_prefix, contains_any, trim_last, split, to_lower, trim_space}
use cnpg_portal.Web.Context.{template_route}
use cnpg_portal.Web.Links.{template_route-eq}
use cnpg_portal.Web.RequestIds.{IsRandomBytes, request_id-IsSafeId, IsSafeId, GivesBytes}
use cnpg_portal.Web.RequestId.{request_id}

-- the admin lists the tenants
serve-IsRead_example :
    All IsRead
      (serve outside rules yaml platform net router urls server
        (request (codes "GET") (codes "root"))
        []).1
unfolding may_change same_origin eq_text authenticate is_admin
serve-IsRead_example =
    serve-IsRead outside rules yaml platform net router urls server
      (request (codes "GET") (codes "root")) router-FindsMounts refl

-- somebody else posts
serve-IsMetadata_example :
    All IsMetadata
      (serve outside rules yaml platform net router urls server
        (request (codes "POST") (codes "guest"))
        []).1
unfolding authenticate eq_text is_admin
serve-IsMetadata_example =
    serve-IsMetadata outside rules yaml platform net router urls server
      (request (codes "POST") (codes "guest")) router-FindsMounts refl

-- nobody posts
serve-IsIdentifier_example :
    All
      (λ c. c ≡ random_bytes 8)
      (serve outside rules yaml platform net router urls server (request (codes "POST") []) []).1
unfolding has_way same_origin eq_text trim_space authenticate
serve-IsIdentifier_example =
    serve-IsIdentifier outside rules yaml platform net router urls server
      (request (codes "POST") []) router-FindsMounts refl

-- an unconfirmed drop
handle-IsBadRequest_example :
    IsBadRequest
      (handle outside rules yaml platform drop
        (record { deps = target.deps; admins = none; base_path = [] })
        (record { identity = none; rid = [] })
        (request (codes "POST") (codes "root")))
      []
unfolding ident_safe eq_text trim_space
handle-IsBadRequest_example =
    handle-IsBadRequest outside rules yaml platform
      (record { deps = target.deps; admins = none; base_path = [] })
      (record { identity = none; rid = [] }) (request (codes "POST") (codes "root")) [] drop refl

abbrev filled : Text → Text
filled name = if eq_text name (codes "confirm") then app else codes "shop_b"

abbrev confirmed : Request
confirmed = record (request (codes "POST") (codes "root")) { form = ok filled }

abbrev handlers : Handlers
handlers = record { deps = target.deps; admins = none; base_path = [] }

abbrev unknown : Context
unknown = record { identity = none; rid = codes "r1" }

abbrev admins_path : Text
admins_path = codes "/etc/admins"

abbrev started : AdminList
started = record { logins = []; path = admins_path; bearer_admin = [] }

Reachable-IsReading_example : IsReading outside admins_path (started, read_file admins_path ∷ [])
unfolding new_admin_list ◌>>=◌ outcome split bytes_of trim_space
Reachable-IsReading_example =
    Reachable-IsReading outside admins_path refl
      (start started [] (read_file admins_path ∷ []) refl)

abbrev admins_text : Text
admins_text = codes " root\n# nobody\n\n"

scan_admins-iff_Stands_example :
    Memᴰ (codes "root") (codes "root" ∷ []) ↔ Stands (split 10 admins_text) (codes "root")
unfolding scan_admins split bytes_of trim_space utf8 has_prefix
scan_admins-iff_Stands_example =
    scan_admins-iff_Stands admins_text (codes "root") (codes "root" ∷ []) refl

abbrev indexed : List (Text × ClusterTarget)
indexed = (codes "main", shown target) ∷ []

new_cluster_registry-IsRouted_example :
    (indexed ≡ map (λ t. (t.id, shown t)) (target ∷ []))
    × IsRouted indexed (target ∷ [])
    × ((t : ClusterTarget) × (find_target (codes "main") indexed ≡ some t))
    × (is_empty (codes "main") ≡ false → codes "main" ≡ codes "main")
unfolding new_cluster_registry eq_text
new_cluster_registry-IsRouted_example =
    new_cluster_registry-IsRouted (codes "main") (target ∷ [])
      (record { default_id = codes "main"; targets = indexed }) refl

canonical_url_injective_example :
    IsSameOrigin to_lower
      (url (codes "https") (codes "DB.") (codes "443"))
      (url (codes "https") (codes "db") [])
unfolding to_lower trim_last canonical_url eq_text contains_any is_digit
canonical_url_injective_example =
    canonical_url_injective to_lower (url (codes "https") (codes "DB.") (codes "443"))
      (url (codes "https") (codes "db") []) (codes "https://db") refl refl refl refl

is_tailscale_cgnat-eq_example :
    (is_tailscale_cgnat (some (100 ∷ 65 ∷ 0 ∷ 1 ∷ [])) ≡ in_prefix 100 65 0 1)
    × (is_tailscale_cgnat
          (some (0 ∷ 0 ∷ 0 ∷ 0 ∷ 0 ∷ 0 ∷ 0 ∷ 0 ∷ 0 ∷ 0 ∷ 255 ∷ 255 ∷ 100 ∷ 65 ∷ 0 ∷ 1 ∷ []))
        ≡ in_prefix 100 65 0 1)
is_tailscale_cgnat-eq_example =
    is_tailscale_cgnat-eq 100 65 0 1 (omega arith) (omega arith) (omega arith) (omega arith)

abbrev config : Config
config = record {
  addr = [];
  read_timeout = 0;
  write_timeout = 0;
  shutdown_grace = 0;
  dev_login = codes "dev";
  tailnet_fallback_login = [];
  admin_list_path = [];
  bearer_token = [];
  bearer_identity = [];
  allowed_origins = [];
}

serve_site-is_admin_example :
    is_admin
      (site_of config server.registry (record { logins = []; path = []; bearer_admin = [] })).admins
      (codes "dev")
    ≡ ((not (is_empty config.bearer_identity) && eq_text (codes "dev") config.bearer_identity)
        || (is_login config.tailnet_fallback_login (codes "dev")
            || is_login (codes "dev") (codes "dev")))
unfolding serve_site ◌>>=◌
serve_site-is_admin_example =
    serve_site-is_admin outside config server.registry (codes "dev") [] []
      (site_of config server.registry (record { logins = []; path = []; bearer_admin = [] })) refl
      refl

template_route-eq_example :
    template_route (codes "/clusters/main") (codes "new")
    ≡ route_path
        (record { deps = target.deps; admins = none; base_path = codes "/clusters/main" })
        (codes "new")
template_route-eq_example =
    template_route-eq
      (record { deps = target.deps; admins = none; base_path = codes "/clusters/main" })
      (codes "new")

-- a client that sends no ID, and a random source of zeros
abbrev zeros : World
zeros = record outside { text = λ h c. ok (0 ∷ 0 ∷ 0 ∷ 0 ∷ 0 ∷ 0 ∷ 0 ∷ 0 ∷ []) }

zeros-GivesBytes : GivesBytes zeros
zeros-GivesBytes h bs e =
    let same : 0 ∷ 0 ∷ 0 ∷ 0 ∷ 0 ∷ 0 ∷ 0 ∷ 0 ∷ [] ≡ bs = cc e in
    subst IsRandomBytes same (refl, refl)

request_id-IsSafeId_example :
    (id : Text) × ((request_id zeros (request (codes "GET") (codes "root")) []).0 ≡ ok id)
    × IsSafeId id
request_id-IsSafeId_example =
    request_id-IsSafeId zeros (request (codes "GET") (codes "root")) [] zeros-GivesBytes
