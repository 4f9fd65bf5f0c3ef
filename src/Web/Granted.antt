-- ===== src/Web/Granted.antt =====
-- Who is an admin when the server starts (internal/web/server.go, ServeClusters).
use cnpg_portal.Prelude.{
  refl, ap, sym, ◌∙◌, false, true, ◌∷◌, Text, [], Bool, not, ◌&&◌, ◌||◌, is_empty, eq_text, ◌≡◌,
  arith,
}
use cnpg_portal.Web.Admins.{
  is_admin, reload, new_admin_list, AdminList, has, member, grant_dev_fallback, set_bearer_admin,
}
use cnpg_portal.Web.Config.{site_of, serve_site, Config, grant_logins}
use cnpg_portal.World.Chain.{pure, ◌>>◌, bind-eq-ok, require, ◌>>=◌}
use cnpg_portal.Result.{ok, Error}
use cnpg_portal.World.{World, History}
use cnpg_portal.Web.Registry.{ClusterRegistry}
use cnpg_portal.Web.Server.{Site}

-- a login that is set and is the given one
abbrev pub is_login : Text → Text → Bool
is_login granted login = not (is_empty granted) && eq_text granted login

abbrev fresh : Text → AdminList
fresh path = record { logins = []; path = path; bearer_admin = [] }

grant_logins-has :
    (c : Config) (login : Text)
    → is_empty c.admin_list_path ≡ true
    → is_empty c.bearer_token ≡ is_empty c.bearer_identity
    → has (grant_logins c (fresh c.admin_list_path)) login ≡ (
        (not (is_empty c.bearer_identity) && eq_text login c.bearer_identity)
        || (is_login c.tailnet_fallback_login login || is_login c.dev_login login))
unfolding has member grant_logins grant_dev_fallback set_bearer_admin
grant_logins-has c login no_path pair = ground arith

started :
    {A : Type 0} (b c : Bool) (e f : Error) (a : A) (h : History) {r : A} {h' : History}
    → (require b e >> (require c f >> pure a)) h ≡ (ok r, h')
    → (b ≡ true) × (c ≡ true) × (a ≡ r)
unfolding ◌>>=◌
started true true e f a h q = (refl, refl, cc q)
started true false e f a h q = absurd (cc q)
started false c e f a h q = absurd (cc q)

paired : (b c : Bool) → (b || not c) ≡ true → (not b || c) ≡ true → b ≡ c
paired b c g h = ground arith

empty_path :
    (w : World) (path : Text) (h : History) {a : AdminList} {h' : History}
    → is_empty path ≡ true
    → new_admin_list w path h ≡ (ok a, h')
    → fresh path ≡ a
unfolding new_admin_list reload ◌>>=◌
empty_path w [] h p e = cc e
empty_path w (c ∷ path) h p e = absurd (cc p)

-- A server that starts without a path of an admin list has as admins exactly the configured logins
-- that are set: the bearer identity, the tailnet's fallback and the developer's login; with none of
-- them it has no admin.
pub serve_site-is_admin :
    (w : World) (c : Config) (registry : ClusterRegistry) (login : Text) (h h' : History)
    (site : Site)
    → is_empty c.admin_list_path ≡ true
    → serve_site w c registry h ≡ (ok site, h')
    → is_admin site.admins login ≡ (
        (not (is_empty c.bearer_identity) && eq_text login c.bearer_identity)
        || (is_login c.tailnet_fallback_login login || is_login c.dev_login login))
unfolding serve_site site_of is_admin
serve_site-is_admin w c registry login h h' site no_path e =
    let (a, h₁, made, rest) = bind-eq-ok (new_admin_list w c.admin_list_path) _ h e in
    let (first, second, same) = started _ _ _ _ (site_of c registry a) h₁ rest in
    let granted =
      grant_logins-has c login no_path
        (paired (is_empty c.bearer_token) (is_empty c.bearer_identity) first second) in
    let fresh_made = empty_path w c.admin_list_path h no_path made in
    ap (λ s. is_admin s.admins login) (sym same)
    ∙ (ap (λ b. has (grant_logins c b) login) (sym fresh_made) ∙ granted)
