-- ===== src/Url/Escaped.antt =====
-- What a reader of a URL makes of an escaped user or password.
use cnpg_portal.Prelude.{
  ltb→lt, List, Bool-cases, inl, inr, ap, append_assoc, ℕ, ◌+◌, ◌-◌, ◌*◌, ◌/◌, ◌%◌, ◌<◌, Text, [],
  ◌∷◌, ◌++◌, Bool, true, false, not, ◌&&◌, ◌||◌, ◌==◌, leb, ltb, if◌then◌else◌, ◌≡◌, refl, arith,
  all, All, all-append, Option, none, some,
}
use cnpg_portal.Url.{hex_digit, utf8, keep_userinfo, escape_byte, escape_bytes, escape}

-- the bytes that end the user or the password in an authority, or begin another part
abbrev pub not_delimiter : ℕ → Bool
not_delimiter c = not (
    c == b'@'
    || c == b':'
    || c == b'/'
    || c == b'?'
    || c == b'#'
    || c == b' '
    || c == b'['
    || c == b']')

hex_digit-all : (n : ℕ) → n < 16 → not_delimiter (hex_digit n) ≡ true
unfolding hex_digit
hex_digit-all n h = ground arith

kept-all : (b : ℕ) → keep_userinfo b ≡ true → not_delimiter b ≡ true
kept-all b h = ground arith

escape_byte-all : (b : ℕ) → b < 256 → all not_delimiter (escape_byte keep_userinfo b) ≡ true
unfolding escape_byte
escape_byte-all b h = elim (Bool-cases (keep_userinfo b)) [
  | inl e ↦ rw e (rw (kept-all b e))
  | inr e ↦
      rw e (rw (hex_digit-all (b / 16) (omega arith)) (rw (hex_digit-all (b % 16) (omega arith))))
]

abbrev pub AreBytes : List ℕ → Type 0
AreBytes bs = All (λ b. b < 256) bs

escape_bytes-all :
    (bs : List ℕ) → AreBytes bs → all not_delimiter (escape_bytes keep_userinfo bs) ≡ true
unfolding escape_bytes
escape_bytes-all [] h = refl
escape_bytes-all (b ∷ bs) (p, h) =
    all-append not_delimiter (escape_byte keep_userinfo b) (escape_bytes keep_userinfo bs)
      (escape_byte-all b p) (escape_bytes-all bs h)

utf8-AreBytes : (c : ℕ) → AreBytes (utf8 c)
unfolding utf8
utf8-AreBytes c = elim (Bool-cases (ltb c 0x80)) [
  | inl e ↦ rw e (omega (arith, ltb→lt c 0x80 e))
  | inr e ↦ rw e (elim (Bool-cases (ltb c 0x800)) [
    | inl f ↦ rw f (omega (arith, ltb→lt c 0x800 f))
    | inr f ↦ rw f (elim (Bool-cases (ltb c 0x10000)) [
      | inl g ↦ rw g (omega (arith, ltb→lt c 0x10000 g))
      | inr g ↦ rw g (omega arith)
    ])
  ])
]

-- An escaped user or password holds none of the runes that end it in a URL, whatever it was.
pub escape-all : (s : Text) → all not_delimiter (escape keep_userinfo s) ≡ true
unfolding escape
escape-all [] = refl
escape-all (c ∷ s) =
    all-append not_delimiter (escape_bytes keep_userinfo (utf8 c)) (escape keep_userinfo s)
      (escape_bytes-all (utf8 c) (utf8-AreBytes c)) (escape-all s)

-- the value of a hexadecimal digit
unhex : ℕ → Option ℕ
unhex c =
    if leb b'0' c && leb c b'9'
    then some (c - b'0')
    else if leb b'A' c && leb c b'F'
    then some (c - b'A' + 10)
    else none

abbrev put : ℕ → Option (List ℕ) → Option (List ℕ)
put b none = none
put b (some bs) = some (b ∷ bs)

abbrev join_hex : Option ℕ → Option ℕ → Option (List ℕ) → Option (List ℕ)
join_hex (some a) (some b) rest = put (a * 16 + b) rest
join_hex _ _ rest = none

-- percent decoding: the bytes that an escaped text stands for
unfoldable pub decode : Text → Option (List ℕ)
unfolding unhex
decode [] = some []
decode (c ∷ []) = if c == b'%' then none else some (c ∷ [])
decode (c ∷ d ∷ []) = let rest = decode (d ∷ []) in if c == b'%' then none else put c rest
decode (c ∷ d ∷ e ∷ s) =
    let hexed = join_hex (unhex d) (unhex e) (decode s) in
    let plain = put c (decode (d ∷ e ∷ s)) in if c == b'%' then hexed else plain

unhex-hex_digit : (n : ℕ) → n < 16 → unhex (hex_digit n) ≡ some n
unfolding unhex hex_digit
unhex-hex_digit n h = ground arith

decode-plain : (c : ℕ) (s : Text) → (c == b'%') ≡ false → decode (c ∷ s) ≡ put c (decode s)
unfolding decode
decode-plain c [] h = rw h
decode-plain c (d ∷ []) h = rw h
decode-plain c (d ∷ e ∷ s) h = rw h

decode-hex :
    (b : ℕ) (s : Text)
    → b < 256
    → decode (b'%' ∷ hex_digit (b / 16) ∷ hex_digit (b % 16) ∷ s) ≡ put b (decode s)
unfolding decode
decode-hex b s h =
    rw (unhex-hex_digit (b / 16) (omega arith))
      (rw (unhex-hex_digit (b % 16) (omega arith)) (ap (λ (x : ℕ). put x (decode s)) (omega arith)))

decode-escape_byte :
    (b : ℕ) (s : Text) → b < 256 → decode (escape_byte keep_userinfo b ++ s) ≡ put b (decode s)
unfolding escape_byte
decode-escape_byte b s h = elim (Bool-cases (keep_userinfo b)) [
  | inl e ↦ rw e (decode-plain b s (ground arith))
  | inr e ↦ rw e (decode-hex b s h)
]

decode-escape_bytes :
    (bs more : List ℕ) (s : Text)
    → AreBytes bs
    → decode s ≡ some more
    → decode (escape_bytes keep_userinfo bs ++ s) ≡ some (bs ++ more)
unfolding escape_bytes
decode-escape_bytes [] more s h k = k
decode-escape_bytes (b ∷ bs) more s (p, h) k = rw append_assoc (
    rw (decode-escape_byte b (escape_bytes keep_userinfo bs ++ s) p)
      (rw (decode-escape_bytes bs more s h k)))

-- the UTF-8 bytes of a text
unfoldable pub bytes_of : Text → List ℕ
bytes_of [] = []
bytes_of (c ∷ s) = utf8 c ++ bytes_of s

-- Percent decoding gives the bytes of the user or password back.
pub decode-escape : (s : Text) → decode (escape keep_userinfo s) ≡ some (bytes_of s)
unfolding escape bytes_of
decode-escape [] = unfold decode in refl
decode-escape (c ∷ s) =
    decode-escape_bytes (utf8 c) (bytes_of s) (escape keep_userinfo s) (utf8-AreBytes c)
      (decode-escape s)
