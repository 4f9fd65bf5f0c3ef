-- ===== src/Tests/Server.antt =====
-- Requests to a server with one cluster, whose router takes the first mount for the method.
use cnpg_portal.Prelude.{
  Text, codes, List, [], ◌∷◌, Bool, true, false, Option, none, some, eq_text, eq_text→eq,
  if◌then◌else◌, ◌≡◌, refl, Bool-cases, inl, inr, subst, arith,
}
use mathlib.Core.List.{Memᴰ}
use cnpg_portal.Result.{ok}
use cnpg_portal.Tests.Verbs.{deps}
use cnpg_portal.Web.{Request}
use cnpg_portal.Web.Identity.{Net}
use cnpg_portal.Web.Origin.{OriginUrl, UrlLibrary}
use cnpg_portal.Strings.{to_lower}
use cnpg_portal.Web.Registry.{ClusterTarget}
use cnpg_portal.Web.Answers.{Platform}
use cnpg_portal.Web.Pages.{html, plain}
use cnpg_portal.Web.Routes.{Mount}
use cnpg_portal.Web.Server.{Router, Site}
use cnpg_portal.Web.Mounts.{FindsMounts}

abbrev pub headers : Text → Text → Text
headers login name =
    if eq_text name (codes "Tailscale-User-Login")
    then login
    else if eq_text name (codes "Sec-Fetch-Site")
    then codes "same-origin"
    else []

-- with an empty form
abbrev pub request : Text → Text → Request
request method login = record {
  method = method;
  host = codes "portal";
  remote_addr = codes "192.0.2.1";
  header = headers login;
  form = ok λ name. [];
  multipart = ok λ name. [];
  upload = none;
  name = codes "shop_a";
  pid = codes "0";
  msg = [];
}

abbrev pub platform : Platform
platform = record {
  ok_name = λ name. true;
  show_time = λ n. codes "now";
  parse_time = λ t. ok t;
  file_stamp = λ n. codes "now";
  backup_ticks = 2;
  pod_ticks = 2;
  probe_ticks = 2;
}

abbrev pub net : Net
net = record { split_host_port = λ t. none; parse_ip = λ t. some (192 ∷ 0 ∷ 2 ∷ 1 ∷ []) }

abbrev pub url : Text → Text → Text → OriginUrl
url scheme hostname port = record {
  scheme = scheme;
  has_user = false;
  hostname = hostname;
  port = port;
  path = [];
  raw_query = [];
  fragment = [];
}

abbrev pub urls : UrlLibrary
urls = record { parse = λ t. ok (url (codes "https") t []); lower = to_lower }

abbrev pub target : ClusterTarget
target = record { id = codes "main"; display_name = []; deps = deps }

abbrev pub server : Site
server = record {
  auth = record {
    dev_login = [];
    bearer_token = [];
    bearer_identity = [];
    tailnet_fallback_login = [];
  };
  admins = some (record { logins = codes "root" ∷ []; path = []; bearer_admin = [] });
  allowed = [];
  registry = record { default_id = codes "main"; targets = (codes "main", target) ∷ [] };
}

abbrev method_is : Text → Mount → Bool
method_is method m = elim m.method [ none ↦ false | some t ↦ eq_text t method ]

abbrev first : Text → List Mount → Option Mount
first method [] = none
first method (m ∷ ms) = let rest = first method ms in if method_is method m then some m else rest

abbrev pub router : Router
router = record {
  find = λ ms q. first q.method ms;
  unrouted = λ q. html 404 (plain (codes "404 page not found"));
  metrics_reply = html 200 (plain []);
}

method_is-eq :
    (method t : Text) (m : Mount) → method_is method m ≡ true → m.method ≡ some t → t ≡ method
method_is-eq method t m e f =
    eq_text→eq t method
      (subst (λ o. (elim o [ none ↦ false | some u ↦ eq_text u method ]) ≡ true) f e)

first-finds :
    (method : Text) (ms : List Mount) (m : Mount) (t : Text)
    → first method ms ≡ some m
    → Memᴰ m ms × (m.method ≡ some t → t ≡ method)
first-finds method [] m t e = absurd (cc e)
first-finds method (k ∷ ms) m t e = elim (Bool-cases (method_is method k)) [
  | inl y ↦
      let same : k ≡ m = ground arith in
      subst (λ n. Memᴰ n (k ∷ ms) × (n.method ≡ some t → t ≡ method)) same
        (Memᴰ.head refl, method_is-eq method t k y)
  | inr n ↦ let (a, b) = first-finds method ms m t (ground arith) in (Memᴰ.tail a, b)
]

pub router-FindsMounts : FindsMounts router
router-FindsMounts ms q m method e = first-finds q.method ms m method e
