-- ===== src/Web/Mounts.antt =====
-- The mounts of the server (internal/web/server.go).
use cnpg_portal.Prelude.{
  Memᴰ, All-of_all, Text, codes, List, [], ◌∷◌, map, All, All-append, Bool, true, false, ◌||◌, ◌&&◌,
  eq_text, Option, none, some, ◌≡◌, refl,
}
use cnpg_portal.Web.{Request}
use cnpg_portal.Web.Registry.{ClusterTarget, ClusterRegistry, find_target, registry_ids}
use cnpg_portal.Web.Routes.{
  Action, tenants, detail, dump, conns, new_form, import_form, branch_form, sync_form, drop_form,
  restore_form, rotate_form, Route, routes, health, metrics, home, page, Mount, mount, mounts_of,
  cluster_mounts, mounts,
}
use cnpg_portal.Web.Server.{Router}

-- a handler that shows something
abbrev pub is_view : Action → Bool
is_view tenants = true
is_view detail = true
is_view dump = true
is_view conns = true
is_view new_form = true
is_view import_form = true
is_view branch_form = true
is_view sync_form = true
is_view drop_form = true
is_view restore_form = true
is_view rotate_form = true
is_view _ = false

-- the two pages without a gate
abbrev pub is_open : Action → Bool
is_open tenants = true
is_open detail = true
is_open _ = false

-- a route without a gate is one of those pages, and one that changes something is a POST
abbrev pub is_proper : Route → Bool
is_proper r = (r.gated || is_open r.action) && (is_view r.action || eq_text r.method (codes "POST"))

abbrev pub IsProper : Mount → Type 0
IsProper m = elim m.endpoint [
  | health ↦ Unit
  | metrics ↦ Unit
  | home ↦ Unit
  | page t r ↦ (m.method ≡ some r.method) × (is_proper r ≡ true)
]

map-mount-IsProper :
    (id : Text) (t : ClusterTarget) (rs : List Route)
    → All (λ r. is_proper r ≡ true) rs
    → All IsProper (map (mount id t) rs)
unfolding mount
map-mount-IsProper id t [] a = tt
map-mount-IsProper id t (r ∷ rs) (p, a) = ((refl, p), map-mount-IsProper id t rs a)

routes-is_proper : All (λ r. is_proper r ≡ true) routes
unfolding routes eq_text
routes-is_proper = All-of_all is_proper routes refl

cluster_mounts-IsProper :
    (reg : ClusterRegistry) (ids : List Text) → All IsProper (cluster_mounts reg ids)
unfolding cluster_mounts mounts_of
cluster_mounts-IsProper reg [] = tt
cluster_mounts-IsProper reg (id ∷ ids) =
    All-append IsProper _ _ (one (find_target id reg.targets)) (cluster_mounts-IsProper reg ids)
  where
    one :
        (o : Option ClusterTarget)
        → All IsProper (elim o [ none ↦ [] | some t ↦ map (mount id t) routes ])
    one none = tt
    one (some t) = map-mount-IsProper id t routes routes-is_proper

pub mounts-IsProper : (reg : ClusterRegistry) → All IsProper (mounts reg)
unfolding mounts registry_ids
mounts-IsProper reg = (tt, (tt, (tt, (tt, cluster_mounts-IsProper reg (registry_ids reg)))))

-- chi finds one of the mounts that it was given, and one for the request's method
abbrev pub FindsMounts : Router → Type 0
FindsMounts router =
    (ms : List Mount) (q : Request) (m : Mount) (method : Text)
    → router.find ms q ≡ some m
    → Memᴰ m ms × (m.method ≡ some method → method ≡ q.method)
