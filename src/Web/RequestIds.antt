-- ===== src/Web/RequestIds.antt =====
-- What a request ID looks like (internal/web/middleware.go).
use cnpg_portal.Prelude.{
  if_cases, codes, length-take, length-keep-le, all-keep, false, take, keep, is_empty, Text, ℕ, [],
  ◌∷◌, true, ◌≡◌, refl, all, length, ltb, ◌≤◌, ◌<◌, ◌/◌, ◌%◌, ◌*◌, arith,
}
use cnpg_portal.Result.{err, Result, ok}
use cnpg_portal.World.{Exec, World, History, random_bytes}
use cnpg_portal.Cnpg.{hex_lower}
use cnpg_portal.Web.RequestId.{
  random_id, sanitize_request_id, random_or_zero, request_id, id_byte, hex_encode,
}
use cnpg_portal.World.Chain.{pure, outcome, ◌>>=◌}
use cnpg_portal.Web.{Request}

-- eight bytes, as the random source documents
abbrev pub IsRandomBytes : Text → Type 0
IsRandomBytes bs = (length bs ≡ 8) × (all (λ b. ltb b 256) bs ≡ true)

abbrev pub GivesBytes : World → Type 0
GivesBytes w = (h : History) (bs : Text) → w.text h (random_bytes 8) ≡ ok bs → IsRandomBytes bs

-- between 1 and 64 letters, digits, hyphens, underscores, dots and colons
abbrev pub IsSafeId : Text → Type 0
IsSafeId id = (all id_byte id ≡ true) × (length id ≤ 64) × (1 ≤ length id)

hex_lower-id_byte : (n : ℕ) → n < 16 → id_byte (hex_lower n) ≡ true
hex_lower-id_byte n l = ground arith

hex_encode-all : (bs : Text) → all (λ b. ltb b 256) bs ≡ true → all id_byte (hex_encode bs) ≡ true
unfolding hex_encode
hex_encode-all [] e = refl
hex_encode-all (b ∷ bs) e =
    let small : b < 256 = ground arith in
    let high = hex_lower-id_byte (b / 16) (omega arith) in
    let low = hex_lower-id_byte (b % 16) (omega arith) in
    let rest = hex_encode-all bs (ground arith) in rw high (rw low rest)

length-hex_encode : (bs : Text) → length (hex_encode bs) ≡ 2 * length bs
unfolding hex_encode
length-hex_encode [] = omega arith
length-hex_encode (b ∷ bs) = omega (arith, length-hex_encode bs)

encoded-IsSafeId : (bs : Text) → IsRandomBytes bs → IsSafeId (hex_encode bs)
encoded-IsSafeId bs (n, b) =
    let l = length-hex_encode bs in (hex_encode-all bs b, omega (arith, l, n), omega (arith, l, n))

random-IsSafeId :
    (r : Result Text) → ((bs : Text) → r ≡ ok bs → IsRandomBytes bs) → IsSafeId (random_or_zero r)
unfolding random_or_zero
random-IsSafeId (ok bs) k = encoded-IsSafeId bs (k bs refl)
random-IsSafeId (err e) k = encoded-IsSafeId (0 ∷ 0 ∷ 0 ∷ 0 ∷ 0 ∷ 0 ∷ 0 ∷ 0 ∷ []) (refl, refl)

kept-IsSafeId :
    (id : Text)
    → is_empty (keep id_byte (take 64 id)) ≡ false
    → IsSafeId (keep id_byte (take 64 id))
kept-IsSafeId id e = (
  all-keep id_byte (take 64 id),
  omega (arith, length-keep-le id_byte (take 64 id), length-take 64 id),
  positive (keep id_byte (take 64 id)) e,
)
  where
    positive : (s : Text) → is_empty s ≡ false → 1 ≤ length s
    positive [] f = absurd (cc f)
    positive (c ∷ s) f = omega arith

-- Every request has an ID of 1 to 64 letters, digits, hyphens, underscores, dots and colons, whatever
-- the client has sent as one and whether the random source answers or fails. It asks of the random
-- source that it gives eight bytes when it gives any.
pub request_id-IsSafeId :
    (w : World) (q : Request) (h : History)
    → GivesBytes w
    → (id : Text) × ((request_id w q h).0 ≡ ok id) × IsSafeId id
unfolding request_id sanitize_request_id random_id ◌>>=◌ outcome pure
request_id-IsSafeId w q h gives =
    let sent = q.header (codes "X-Request-Id") in
    let Safe : Exec Text → Type 0 = λ m. (id : Text) × ((m h).0 ≡ ok id) × IsSafeId id in
    let made : Safe (random_id w) =
      (random_or_zero (w.text h (random_bytes 8)), refl, random-IsSafeId _ (gives h)) in
    if_cases Safe (is_empty sent) _ _ (λ e. made)
      λ e.
        if_cases Safe (is_empty (keep id_byte (take 64 sent))) _ _ (λ f. made)
          λ f. (keep id_byte (take 64 sent), refl, kept-IsSafeId sent f)
