-- ===== src/Web/Vouched.antt =====
-- What vouches for an identity (internal/web/identity.go, IdentityMiddleware).
use cnpg_portal.Prelude.{
  none, some, Text, codes, Bool, true, false, not, ◌&&◌, is_empty, eq_text, ◌≡◌,
}
use cnpg_portal.Web.{Request}
use cnpg_portal.Web.Identity.{
  auth_required, Net, Auth, Verdict, proceed, deny, named, parse_bearer_secret, is_tailscale_cgnat,
}

-- a token is configured, and the request shows one
abbrev pub shows_token : Auth → Request → Bool
shows_token auth q =
    (not (is_empty auth.bearer_token) && not (is_empty auth.bearer_identity))
    && not (is_empty (parse_bearer_secret q))

abbrev pub header_login : Request → Text
header_login q = q.header (codes "Tailscale-User-Login")

-- the host of the request's RemoteAddr, or all of it where it has no port
abbrev pub peer_host : Net → Request → Text
peer_host net q = elim (net.split_host_port q.remote_addr) [
  | none ↦ q.remote_addr
  | some host ↦ host
]

-- the fallback of the tailnet has a login, and the peer is in the tailnet
abbrev pub falls_back : Net → Auth → Request → Bool
falls_back net auth q =
    not (is_empty auth.tailnet_fallback_login)
    && is_tailscale_cgnat (net.parse_ip (peer_host net q))

pub data Judged (net : Net) (auth : Auth) (q : Request) : Verdict → Type 0 where
  right_token :
      shows_token auth q ≡ true
      → auth.bearer_token ≡ parse_bearer_secret q
      → Judged net auth q (proceed (named (codes "bearer") auth.bearer_identity))
  wrong_token :
      shows_token auth q ≡ true
      → eq_text auth.bearer_token (parse_bearer_secret q) ≡ false
      → Judged net auth q (deny 401 (codes "invalid bearer token"))
  developer :
      shows_token auth q ≡ false
      → is_empty auth.dev_login ≡ false
      → Judged net auth q (proceed (named (codes "dev") auth.dev_login))
  tailnet_peer :
      shows_token auth q ≡ false
      → is_empty auth.dev_login ≡ true
      → is_empty (header_login q) ≡ true
      → falls_back net auth q ≡ true
      → Judged net auth q (proceed (named (codes "tailnet") auth.tailnet_fallback_login))
  tailscale_header :
      shows_token auth q ≡ false
      → is_empty auth.dev_login ≡ true
      → is_empty (header_login q) ≡ false
      → Judged net auth q (
          proceed (record {
            login = header_login q;
            name = q.header (codes "Tailscale-User-Name");
            pic_url = q.header (codes "Tailscale-User-Profile-Pic");
          }))
  nobody :
      shows_token auth q ≡ false
      → is_empty auth.dev_login ≡ true
      → is_empty (header_login q) ≡ true
      → falls_back net auth q ≡ false
      → Judged net auth q (deny 403 (auth_required))
