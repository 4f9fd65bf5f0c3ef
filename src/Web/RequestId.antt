-- ===== src/Web/RequestId.antt =====
-- internal/web/middleware.go: the request ID. A header is the list of its bytes: of a UTF-8 text,
-- the bytes below 128 are the ASCII runes, and no others are kept.
use cnpg_portal.Result.{Result, ok, err}
use cnpg_portal.Prelude.{
  Text, codes, ℕ, List, [], ◌∷◌, Bool, ◌||◌, ◌&&◌, leb, ◌==◌, if◌then◌else◌, is_empty, keep, take,
  ◌/◌, ◌%◌,
}
use cnpg_portal.World.{random_bytes, ask_text, World, Exec}
use cnpg_portal.World.Chain.{pure, outcome, ◌>>=◌}
use cnpg_portal.Web.{Result, Request}
use cnpg_portal.Cnpg.{hex_lower}

abbrev pub is_letter : ℕ → Bool
is_letter c = (leb b'a' c && leb c b'z') || (leb b'A' c && leb c b'Z')

abbrev pub id_byte : ℕ → Bool
id_byte c =
    is_letter c || (leb b'0' c && leb c b'9') || c == b'-' || c == b'_' || c == b'.' || c == b':'

unfoldable pub hex_encode : List ℕ → Text
hex_encode [] = []
hex_encode (b ∷ bs) = hex_lower (b / 16) ∷ hex_lower (b % 16) ∷ hex_encode bs

-- the result of an answer of the random source, whose error is ignored
unfoldable pub random_or_zero : Result Text → Text
unfolding hex_encode
random_or_zero (ok bs) = hex_encode bs
random_or_zero (err e) = hex_encode (0 ∷ 0 ∷ 0 ∷ 0 ∷ 0 ∷ 0 ∷ 0 ∷ 0 ∷ [])

module _ (w : World) where
  unfoldable pub random_id : Exec Text
  unfolding random_or_zero
  random_id = outcome (ask_text w (random_bytes 8)) >>= λ r. pure (random_or_zero r)

  unfoldable pub sanitize_request_id : Text → Exec Text
  unfolding random_id
  sanitize_request_id id =
      let kept = keep id_byte (take 64 id) in if is_empty kept then random_id else pure kept

  unfoldable pub request_id : Request → Exec Text
  unfolding sanitize_request_id
  request_id q =
      let id = q.header (codes "X-Request-Id") in
      if is_empty id then random_id else sanitize_request_id id
