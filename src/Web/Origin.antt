-- ===== src/Web/Origin.antt =====
-- internal/web/server.go: the same-origin check. `UrlLibrary` is the standard library's part:
-- the parser of URLs, and `strings.ToLower` on all of Unicode.
use cnpg_portal.Prelude.{
  ◌==◌, Text, codes, List, [], ◌∷◌, ◌++◌, Bool, false, ◌||◌, ◌&&◌, not, Option, none, some,
  if◌then◌else◌, is_empty, eq_text,
}
use cnpg_portal.Result.{Result, ok, err}
use cnpg_portal.Strings.{contains_any, trim_space, trim_last}
use cnpg_portal.Web.{Request}
use cnpg_portal.Web.Admins.{member}

pub record OriginUrl : Type 0 where
  pub scheme : Text
  pub has_user : Bool
  pub hostname : Text
  pub port : Text
  pub path : Text
  pub raw_query : Text
  pub fragment : Text

pub record UrlLibrary : Type 0 where
  pub parse : Text → Result OriginUrl
  pub lower : Text → Text

unfoldable pub default_port : Text → Text → Bool
default_port scheme port =
    (eq_text scheme (codes "https") && eq_text port (codes "443"))
    || (eq_text scheme (codes "http") && eq_text port (codes "80"))

-- the host in brackets if it has a colon, with the port, if one is left
unfoldable pub authority : Text → Text → Text
authority host port =
    let bracketed =
      if contains_any host (λ c. c == b':') then codes "[" ++ (host ++ codes "]") else host in
    if is_empty port then bracketed else bracketed ++ (codes ":" ++ port)

unfoldable pub canonical_url : (Text → Text) → OriginUrl → Option Text
unfolding default_port authority
canonical_url lower u =
    let scheme = lower u.scheme in
    let host = lower (trim_last b'.' u.hostname) in
    let port = if default_port scheme u.port then [] else u.port in
    let odd =
      is_empty u.hostname
      || u.has_user
      || not (is_empty u.raw_query)
      || not (is_empty u.fragment)
      || (not (is_empty u.path) && not (eq_text u.path (codes "/"))) in
    if odd
    then none
    else if eq_text scheme (codes "http") || eq_text scheme (codes "https")
    then some (scheme ++ (codes "://" ++ authority host port))
    else none

module _ (urls : UrlLibrary) where
  unfoldable pub canonical_origin : Text → Option Text
  unfolding canonical_url
  canonical_origin raw = elim (urls.parse (trim_space raw)) [
    | err e ↦ none
    | ok u ↦ canonical_url urls.lower u
  ]

  -- the map of the allowed origins
  unfoldable pub allowed_set : List Text → List Text
  unfolding canonical_origin
  allowed_set [] = []
  allowed_set (o ∷ os) = elim (canonical_origin o) [
    | none ↦ allowed_set os
    | some c ↦ c ∷ allowed_set os
  ]

  abbrev pub same_text : Option Text → Text → Bool
  same_text none o = false
  same_text (some e) o = eq_text o e

  -- the origin is the one of the request's host, with either scheme, or an allowed one
  unfoldable pub expected_origin : List Text → Request → Text → Bool
  unfolding allowed_set canonical_origin member
  expected_origin allowed q origin =
      same_text (canonical_origin (codes "http://" ++ q.host)) origin
      || same_text (canonical_origin (codes "https://" ++ q.host)) origin
      || member origin (allowed_set allowed)

  abbrev pub is_safe_method : Text → Bool
  is_safe_method m =
      eq_text m (codes "GET") || eq_text m (codes "HEAD") || eq_text m (codes "OPTIONS")

  unfoldable pub origin_matches : List Text → Request → Text → Bool
  unfolding expected_origin
  origin_matches allowed q raw = elim (canonical_origin raw) [
    | none ↦ false
    | some origin ↦ expected_origin allowed q origin
  ]

  unfoldable pub fetch_metadata : Request → Text → Bool
  fetch_metadata q raw =
      (is_empty raw || eq_text raw (codes "null"))
      && eq_text (q.header (codes "Sec-Fetch-Site")) (codes "same-origin")

  -- `none` sends the request on; otherwise it is the text of a 403
  unfoldable pub same_origin : List Text → Request → Option Text
  unfolding origin_matches fetch_metadata
  same_origin allowed q =
      let raw = trim_space (q.header (codes "Origin")) in
      if is_safe_method q.method || origin_matches allowed q raw || fetch_metadata q raw
      then none
      else if is_empty raw
      then some (codes "origin required")
      else some (codes "cross-origin request rejected")
