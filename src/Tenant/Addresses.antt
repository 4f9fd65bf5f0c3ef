-- ===== src/Tenant/Addresses.antt =====
-- internal/tenant/tenant.go: the connection URL of a tenant, read as a client reads it: up to the
-- first colon, then up to the first at sign, each part percent-decoded.
use cnpg_portal.Prelude.{
  Text, ℕ, ◌≡◌, refl, [], ◌∷◌, ◌++◌, ◌==◌, not, all, all_mono, true, arith, if◌then◌else◌, some,
  codes,
}
use cnpg_portal.Url.{keep_path, escape, keep_userinfo, postgres_url}
use cnpg_portal.Url.Escaped.{decode, decode-escape, bytes_of, escape-all, not_delimiter}
use cnpg_portal.Tenant.{build_database_url, service_host}
use cnpg_portal.Strings.{drop}

-- what stands before the first `d`, and what stands behind it
unfoldable pub cut : ℕ → Text → Text × Text
cut d [] = ([], [])
cut d (c ∷ s) = let (before, behind) = cut d s in if c == d then ([], s) else (c ∷ before, behind)

pub cut-append :
    (d : ℕ) (s t : Text) → all (λ c. not (c == d)) s ≡ true → cut d (s ++ d ∷ t) ≡ (s, t)
unfolding cut
cut-append d [] t e = ground arith
cut-append d (c ∷ s) t e = ground (arith, cut-append d s t)

-- behind "postgresql://"
unfoldable pub authority : Text → Text
authority url = drop 13 url

unfoldable pub url_user : Text → Text
unfolding cut authority
url_user url = (cut b':' (authority url)).0

unfoldable pub url_password : Text → Text
unfolding cut authority
url_password url = (cut b'@' (cut b':' (authority url)).1).0

part-free :
    (d : ℕ) (s : Text)
    → ((c : ℕ) → not_delimiter c ≡ true → not (c == d) ≡ true)
    → all (λ c. not (c == d)) (escape keep_userinfo s) ≡ true
part-free d s f =
    all_mono not_delimiter (λ c. not (c == d)) (escape keep_userinfo s) f (escape-all s)

reads :
    (u p t : Text)
    → all (λ c. not (c == b':')) u ≡ true
    → all (λ c. not (c == b'@')) p ≡ true
    → ((cut b':' (u ++ b':' ∷ (p ++ b'@' ∷ t))).0 ≡ u)
      × ((cut b'@' (cut b':' (u ++ b':' ∷ (p ++ b'@' ∷ t))).1).0 ≡ p)
reads u p t h k = rw (cut-append b':' u (p ++ b'@' ∷ t) h) (refl, λ i. (cut-append b'@' p t k i).0)

-- Whatever characters the role and the password have, the connection URL of a tenant reads back as
-- them: the user and the password of the URL decode to the bytes of the role and the password.
pub build_database_url-decode :
    (service role password namespace db : Text)
    → (decode (url_user (build_database_url service role password namespace db))
        ≡ some (bytes_of role))
      × (decode (url_password (build_database_url service role password namespace db))
          ≡ some (bytes_of password))
unfolding build_database_url postgres_url url_user url_password authority drop
build_database_url-decode service role password namespace db =
    let tail = (service_host service namespace ++ codes ":5432") ++ escape keep_path (b'/' ∷ db) in
    let (u, p) =
      reads (escape keep_userinfo role) (escape keep_userinfo password) tail
        (part-free b':' role λ c h. ground arith) (part-free b'@' password λ c h. ground arith) in
    (rw u (decode-escape role), rw p (decode-escape password))
