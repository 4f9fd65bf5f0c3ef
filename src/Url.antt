-- ===== src/Url.antt =====
-- What the program uses of Go's `net/url`: the escaping of `URL.String` and of `Values.Encode`.
pub mod Escaped
use cnpg_portal.Prelude.{
  ℕ, ◌+◌, ◌-◌, ◌/◌, ◌%◌, Text, codes, List, [], ◌∷◌, ◌++◌, Bool, true, false, not, ◌&&◌, ◌||◌, ◌==◌,
  leb, ltb, if◌then◌else◌,
}

-- the UTF-8 bytes of a rune
unfoldable pub utf8 : ℕ → List ℕ
utf8 c =
    if ltb c 0x80
    then c ∷ []
    else if ltb c 0x800
    then (0xc0 + c / 64) ∷ (0x80 + c % 64) ∷ []
    else if ltb c 0x10000
    then (0xe0 + c / 4096) ∷ (0x80 + c / 64 % 64) ∷ (0x80 + c % 64) ∷ []
    else (0xf0 + c / 262144 % 8)
      ∷ (0x80 + c / 4096 % 64)
      ∷ (0x80 + c / 64 % 64)
      ∷ (0x80 + c % 64)
      ∷ []

unfoldable pub hex_digit : ℕ → ℕ
hex_digit n = if ltb n 10 then b'0' + n else b'A' + (n - 10)

abbrev pub unreserved : ℕ → Bool
unreserved c =
    (leb b'a' c && leb c b'z')
    || (leb b'A' c && leb c b'Z')
    || (leb b'0' c && leb c b'9')
    || c == b'-'
    || c == b'_'
    || c == b'.'
    || c == b'~'

-- encodeUserPassword
abbrev pub keep_userinfo : ℕ → Bool
keep_userinfo c =
    unreserved c || c == b'$' || c == b'&' || c == b'+' || c == b',' || c == b';' || c == b'='

-- encodePath
abbrev pub keep_path : ℕ → Bool
keep_path c =
    unreserved c
    || c == b'$'
    || c == b'&'
    || c == b'+'
    || c == b','
    || c == b'/'
    || c == b':'
    || c == b';'
    || c == b'='
    || c == b'@'

unfoldable pub escape_byte : (ℕ → Bool) → ℕ → Text
unfolding hex_digit
escape_byte kept b = if kept b then b ∷ [] else b'%' ∷ hex_digit (b / 16) ∷ hex_digit (b % 16) ∷ []

unfoldable pub escape_bytes : (ℕ → Bool) → List ℕ → Text
unfolding escape_byte
escape_bytes kept [] = []
escape_bytes kept (b ∷ bs) = escape_byte kept b ++ escape_bytes kept bs

unfoldable pub escape : (ℕ → Bool) → Text → Text
unfolding escape_bytes utf8
escape kept [] = []
escape kept (c ∷ s) = escape_bytes kept (utf8 c) ++ escape kept s

-- url.QueryEscape: a blank is a plus sign
unfoldable pub query_escape : Text → Text
unfolding escape_bytes utf8
query_escape [] = []
query_escape (c ∷ s) =
    (if c == b' ' then b'+' ∷ [] else escape_bytes unreserved (utf8 c)) ++ query_escape s

-- (&url.URL{Scheme: "postgresql", User: url.UserPassword(user, password), Host: host,
-- Path: "/" + path}).String(), for a host of letters, digits, dots, hyphens and a port
unfoldable pub postgres_url : Text → Text → Text → Text → Text
unfolding escape
postgres_url user password host path =
    codes "postgresql://"
    ++ (escape keep_userinfo user
        ++ (codes ":"
            ++ (escape keep_userinfo password
                ++ (codes "@" ++ (host ++ escape keep_path (b'/' ∷ path))))))
