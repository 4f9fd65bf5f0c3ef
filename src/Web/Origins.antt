-- ===== src/Web/Origins.antt =====
-- Which origins are the same (internal/web/server.go, canonicalOrigin).
use cnpg_portal.Prelude.{
  ◌||◌, ◌&&◌, none, some, get_elem?, ◌≢◌, eq_text→eq, ◌⊎◌, if_cases, ℕ, Text, codes, [], ◌++◌, Bool,
  true, some, ◌≡◌, refl, sym, ◌∙◌, ap, eq_text, if◌then◌else◌, Bool-cases, inl, inr, arith,
}
use cnpg_portal.Strings.{trim_last, drop}
use cnpg_portal.Web.Origin.{OriginUrl, default_port, authority, canonical_url}
use cnpg_portal.Web.Authorities.{is_port, authority-injective}

fifth : Text → ℕ
fifth t = elim (get_elem? t 4) [ none ↦ 0 | some c ↦ c ]

schemes_differ : (a b : Text) → codes "http://" ++ a ≢ codes "https://" ++ b
unfolding fifth
schemes_differ a b e =
    let f : fifth (codes "http://") ≡ fifth (codes "https://") = ap fifth e in
    absurd (omega (arith, f))

-- the port that stands for none: 80 for http, and 443 for https
abbrev pub is_known_port : Text → Text → Bool
is_known_port scheme port =
    (eq_text scheme (codes "http") && eq_text port (codes "80"))
    || (eq_text scheme (codes "https") && eq_text port (codes "443"))

default_port-eq : (scheme port : Text) → default_port scheme port ≡ is_known_port scheme port
unfolding default_port
default_port-eq scheme port = ground arith

module _ (lower : Text → Text) where
  -- the parts that make the origin: the scheme, the host, and the port, which is "" for the default
  abbrev pub scheme_of : OriginUrl → Text
  scheme_of u = lower u.scheme

  abbrev pub host_of : OriginUrl → Text
  host_of u = lower (trim_last b'.' u.hostname)

  abbrev pub port_of : OriginUrl → Text
  port_of u = if is_known_port (lower u.scheme) u.port then [] else u.port

  abbrev pub IsSameOrigin : OriginUrl → OriginUrl → Type 0
  IsSameOrigin u v = (scheme_of u ≡ scheme_of v) × (host_of u ≡ host_of v) × (port_of u ≡ port_of v)

  abbrev authority_of : OriginUrl → Text
  authority_of u = authority (host_of u) (port_of u)

  -- the scheme that a canonical origin has, and the text of it
  abbrev Says : OriginUrl → Text → Type 0
  Says u s =
      (scheme_of u ≡ codes "http") × (s ≡ codes "http://" ++ authority_of u)
      ⊎ (scheme_of u ≡ codes "https") × (s ≡ codes "https://" ++ authority_of u)

  canonical_url-Says : (u : OriginUrl) (s : Text) → canonical_url lower u ≡ some s → Says u s
  unfolding canonical_url
  canonical_url-Says u s e =
      let known = default_port-eq (lower u.scheme) u.port in
      let text : scheme_of u ++ (codes "://" ++ authority_of u) ≡ s = ground arith in
      elim (Bool-cases (eq_text (scheme_of u) (codes "http"))) [
        | inl t ↦
            let is = eq_text→eq _ _ t in
            inl (is, sym text ∙ ap (λ c. c ++ (codes "://" ++ authority_of u)) is)
        | inr f ↦
            let t : eq_text (scheme_of u) (codes "https") ≡ true = ground arith in
            let is = eq_text→eq _ _ t in
            inr (is, sym text ∙ ap (λ c. c ++ (codes "://" ++ authority_of u)) is)
      ]

  port_of-is_port : (u : OriginUrl) → is_port u.port ≡ true → is_port (port_of u) ≡ true
  port_of-is_port u e =
      if_cases (λ p. is_port p ≡ true) (is_known_port (lower u.scheme) u.port) _ _ (λ t. refl)
        λ f. e

  -- Two URLs with the same canonical origin, whose ports are numeric or "", have the same scheme and
  -- the same host, once both are lowered and one dot at the end of the host is dropped, and the same
  -- port, 80 for http and 443 for https being the same as none: whatever characters the hosts have, brackets and
  -- colons included, the text of an origin cannot be read as that of another host or port.
  pub canonical_url_injective :
      (u v : OriginUrl) (s : Text)
      → is_port u.port ≡ true
      → is_port v.port ≡ true
      → canonical_url lower u ≡ some s
      → canonical_url lower v ≡ some s
      → IsSameOrigin u v
  unfolding drop
  canonical_url_injective u v s pu pv eu ev =
      go (canonical_url-Says u s eu) (canonical_url-Says v s ev)
    where
      parts : authority_of u ≡ authority_of v → (host_of u ≡ host_of v) × (port_of u ≡ port_of v)
      parts e =
          authority-injective (host_of u) (host_of v) (port_of u) (port_of v) (port_of-is_port u pu)
            (port_of-is_port v pv) e

      go : Says u s → Says v s → IsSameOrigin u v
      go (inl (a, b)) (inl (c, d)) =
          let (e, f) = parts (ap (drop 7) (sym b ∙ d)) in (a ∙ sym c, e, f)
      go (inr (a, b)) (inr (c, d)) =
          let (e, f) = parts (ap (drop 8) (sym b ∙ d)) in (a ∙ sym c, e, f)
      go (inl (a, b)) (inr (c, d)) = absurd (schemes_differ _ _ (sym b ∙ d))
      go (inr (a, b)) (inl (c, d)) = absurd (schemes_differ _ _ (sym d ∙ b))
