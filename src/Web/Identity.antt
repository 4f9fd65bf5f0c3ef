-- ===== src/Web/Identity.antt =====
-- internal/web/identity.go: who a request is from. `Net` is the standard library's parser of
-- addresses: `split_host_port` gives the host, `parse_ip` the 4 or 16 bytes of an address.
use cnpg_portal.Prelude.{
  Text, codes, ℕ, List, [], ◌∷◌, ◌++◌, Bool, false, ◌&&◌, not, ◌==◌, leb, Option, none, some,
  if◌then◌else◌, is_empty, eq_text,
}
use cnpg_portal.Strings.{trim_space, words, to_lower}
use cnpg_portal.Web.{Request}

pub record Net : Type 0 where
  pub split_host_port : Text → Option Text
  pub parse_ip : Text → Option (List ℕ)

pub record Identity : Type 0 where
  pub login : Text
  pub name : Text
  pub pic_url : Text

-- The knobs of `Auth` that say who a request is from; the admins and the allowed origins are
-- arguments of the middleware that reads them.
pub record Auth : Type 0 where
  pub dev_login : Text
  pub bearer_token : Text
  pub bearer_identity : Text
  pub tailnet_fallback_login : Text

-- what follows `strings.Fields`
unfoldable pub bearer_of : List Text → Text
bearer_of (scheme ∷ secret ∷ []) = if eq_text (to_lower scheme) (codes "bearer") then secret else []
bearer_of _ = []

unfoldable pub parse_bearer_secret : Request → Text
unfolding bearer_of
parse_bearer_secret q = bearer_of (words (trim_space (q.header (codes "Authorization"))))

-- equal lengths, and then a comparison of all bytes
unfoldable pub bearer_tokens_equal : Text → Text → Bool
bearer_tokens_equal expected got = eq_text expected got

unfoldable pub request_client_ip : Net → Request → Option (List ℕ)
request_client_ip net q = elim (net.split_host_port q.remote_addr) [
  | none ↦ net.parse_ip q.remote_addr
  | some host ↦ net.parse_ip host
]

-- net.IP.To4: four bytes, or the four that an address in ::ffff:0:0/96 ends in
unfoldable pub to4 : List ℕ → Option (List ℕ)
to4 (a ∷ b ∷ c ∷ d ∷ []) = some (a ∷ b ∷ c ∷ d ∷ [])
to4 (o₀ ∷ o₁ ∷ o₂ ∷ o₃ ∷ o₄ ∷ o₅ ∷ o₆ ∷ o₇ ∷ o₈ ∷ o₉ ∷ f ∷ g ∷ a ∷ b ∷ c ∷ d ∷ []) =
    let zeros =
      o₀ == 0
      && o₁ == 0
      && o₂ == 0
      && o₃ == 0
      && o₄ == 0
      && o₅ == 0
      && o₆ == 0
      && o₇ == 0
      && o₈ == 0
      && o₉ == 0 in
    if zeros && f == 255 && g == 255 then some (a ∷ b ∷ c ∷ d ∷ []) else none
to4 _ = none

unfoldable pub in_cgnat : List ℕ → Bool
in_cgnat (a ∷ b ∷ more) = a == 100 && leb 64 b && leb b 127
in_cgnat _ = false

unfoldable pub is_tailscale_cgnat : Option (List ℕ) → Bool
unfolding to4 in_cgnat
is_tailscale_cgnat none = false
is_tailscale_cgnat (some ip) = elim (to4 ip) [ none ↦ false | some v4 ↦ in_cgnat v4 ]

-- what IdentityMiddleware does with a request: on to the next handler with an identity, or a
-- plain error with its status
pub data Verdict : Type 0 where
  proceed : Identity → Verdict
  deny : ℕ → Text → Verdict

-- `bearer (…)`, `dev (…)` and `tailnet (…)`
unfoldable pub named : Text → Text → Identity
named kind login = record {
  login = login;
  name = kind ++ (codes " (" ++ (login ++ codes ")"));
  pic_url = [];
}

abbrev pub auth_required : Text
auth_required =
    codes
      "authentication required: use Tailscale identity headers, or Authorization: Bearer <token> if configured, or --tailnet-fallback-login for CGNAT-only ingress (see cnpg-portal README)"

unfoldable pub header_identity : Request → Verdict
header_identity q =
    let login = q.header (codes "Tailscale-User-Login") in
    if is_empty login
    then deny 403 (auth_required)
    else proceed (record {
      login = login;
      name = q.header (codes "Tailscale-User-Name");
      pic_url = q.header (codes "Tailscale-User-Profile-Pic");
    })

unfoldable pub tailnet_identity : Net → Auth → Request → Verdict
unfolding header_identity
tailnet_identity net auth q =
    let from_tailnet = is_tailscale_cgnat (request_client_ip net q) in
    if is_empty (q.header (codes "Tailscale-User-Login"))
      && not (is_empty auth.tailnet_fallback_login)
      && from_tailnet
    then proceed (named (codes "tailnet") auth.tailnet_fallback_login)
    else header_identity q

unfoldable pub without_bearer : Net → Auth → Request → Verdict
unfolding tailnet_identity
without_bearer net auth q =
    if is_empty auth.dev_login
    then tailnet_identity net auth q
    else proceed (named (codes "dev") auth.dev_login)

unfoldable pub authenticate : Net → Auth → Request → Verdict
unfolding parse_bearer_secret bearer_tokens_equal without_bearer named
authenticate net auth q =
    let token = parse_bearer_secret q in
    let configured = not (is_empty auth.bearer_token) && not (is_empty auth.bearer_identity) in
    if configured && not (is_empty token)
    then if bearer_tokens_equal auth.bearer_token token
      then proceed (named (codes "bearer") auth.bearer_identity)
      else deny 401 (codes "invalid bearer token")
    else without_bearer net auth q
