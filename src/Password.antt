-- ===== src/Password.antt =====
-- The password of a tenant: `generatePassword` of internal/tenant/tenant.go, and the Secret file
-- that `buildSecretYAML` writes and `parseSecretPassword` reads (internal/tenant/provision.go).
pub mod ReadBack
use cnpg_portal.Prelude.{
  ℕ, ◌+◌, ◌-◌, ◌*◌, ◌/◌, ◌%◌, Text, codes, List, [], ◌∷◌, ◌++◌, Bool, ◌||◌, ◌==◌, ltb, Option, none,
  some, if◌then◌else◌, is_empty,
}
use cnpg_portal.Strings.{join, split, trim, trim_space, trim_prefix, has_prefix, replace_all}
use cnpg_portal.Quoting.{quote}
use cnpg_portal.Result.{Result, ok, err, message}

-- base64.RawURLEncoding
unfoldable pub base64_digit : ℕ → ℕ
base64_digit n =
    if ltb n 26
    then b'A' + n
    else if ltb n 52
    then b'a' + (n - 26)
    else if ltb n 62
    then b'0' + (n - 52)
    else if n == 62
    then b'-'
    else b'_'

unfoldable pub base64_encode : List ℕ → Text
unfolding base64_digit
base64_encode [] = []
base64_encode (a ∷ []) = base64_digit (a / 4) ∷ base64_digit (a % 4 * 16) ∷ []
base64_encode (a ∷ b ∷ []) =
    base64_digit (a / 4) ∷ base64_digit (a % 4 * 16 + b / 16) ∷ base64_digit (b % 16 * 4) ∷ []
base64_encode (a ∷ b ∷ c ∷ more) =
    base64_digit (a / 4)
    ∷ base64_digit (a % 4 * 16 + b / 16)
    ∷ base64_digit (b % 16 * 4 + c / 64)
    ∷ base64_digit (c % 64)
    ∷ base64_encode more

abbrev pub newline : Text
newline = 10 ∷ []

-- between single quotes in YAML, a single quote is written twice
abbrev pub doubled : Text → Text
doubled s = replace_all quote (quote ∷ quote ∷ []) s

abbrev pub single_quoted : Text → Text
single_quoted s = quote ∷ (doubled s ++ quote ∷ [])

-- the lines of the Secret manifest, and an empty one behind the last line feed
unfoldable pub secret_lines : Text → Text → Text → Text → List Text
secret_lines name namespace username password =
    codes "apiVersion: v1"
    ∷ codes "kind: Secret"
    ∷ codes "metadata:"
    ∷ (codes "  name: " ++ name)
    ∷ (codes "  namespace: " ++ namespace)
    ∷ codes "type: kubernetes.io/basic-auth"
    ∷ codes "stringData:"
    ∷ (codes "  username: " ++ single_quoted username)
    ∷ (codes "  password: " ++ single_quoted password)
    ∷ []
    ∷ []

unfoldable pub build_secret_yaml : Text → Text → Text → Text → Text
unfolding secret_lines
build_secret_yaml name namespace username password =
    join newline (secret_lines name namespace username password)

abbrev pub password_key : Text
password_key = codes "password:"

abbrev pub is_quote : ℕ → Bool
is_quote c = c == b'"' || c == quote

-- what one line says of the password
unfoldable pub line_password : Text → Option Text
line_password line =
    let l = trim_space line in
    let v = trim is_quote (trim_space (trim_prefix l password_key)) in
    if has_prefix l password_key then if is_empty v then none else some v else none

unfoldable pub first_password : List Text → Result Text
unfolding line_password
first_password [] = err (message (codes "password field not found"))
first_password (line ∷ lines) = elim (line_password line) [
  | none ↦ first_password lines
  | some v ↦ ok v
]

unfoldable pub parse_secret_password : Text → Result Text
unfolding first_password
parse_secret_password text = first_password (split 10 text)
