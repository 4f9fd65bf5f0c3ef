-- ===== src/Password/ReadBack.antt =====
-- The Secret file: what `parseSecretPassword` reads in the text of `buildSecretYAML`
-- (internal/tenant/provision.go).
use cnpg_portal.Prelude.{
  ℕ, Text, codes, [], ◌∷◌, ◌++◌, Bool, true, false, not, ◌||◌, ◌&&◌, ◌==◌, leb, all, is_empty, ◌≡◌,
  refl, none, some, arith, ◌∙◌, all_mono, all-append,
}
use cnpg_portal.Result.{ok}
use cnpg_portal.Quoting.{quote}
use cnpg_portal.Strings.{
  join, split, trim_left, trim_right, trim, trim_space, trim_prefix, has_prefix, is_space,
  replace_all, drop,
}
use cnpg_portal.Password.{
  build_secret_yaml, secret_lines, parse_secret_password, first_password, line_password, is_quote,
  single_quoted, doubled,
}

-- the characters of a generated password
abbrev pub is_token_rune : ℕ → Bool
is_token_rune c =
    (leb b'A' c && leb c b'Z')
    || (leb b'a' c && leb c b'z')
    || (leb b'0' c && leb c b'9')
    || c == b'-'
    || c == b'_'

abbrev pub is_token : Text → Bool
is_token s = not (is_empty s) && all is_token_rune s

-- one line of a text
abbrev pub is_line : Text → Bool
is_line s = all (λ c. not (c == 10)) s

split-line : (s t : Text) → is_line s ≡ true → split 10 (s ++ 10 ∷ t) ≡ s ∷ split 10 t
unfolding split
split-line [] t e = refl
split-line (c ∷ s) t e = ground (arith, split-line s t)

skips :
    (s t : Text)
    → is_line s ≡ true
    → line_password s ≡ none
    → parse_secret_password (s ++ 10 ∷ t) ≡ parse_secret_password t
unfolding parse_secret_password first_password
skips s t e f = rw (split-line s t e) (rw (f, first_password) refl)

finds :
    (s t v : Text)
    → is_line s ≡ true
    → line_password s ≡ some v
    → parse_secret_password (s ++ 10 ∷ t) ≡ ok v
unfolding parse_secret_password first_password
finds s t v e f = rw (split-line s t e) (rw (f, first_password) refl)

trim_right-cons :
    (p : ℕ → Bool) (c : ℕ) (s : Text) → p c ≡ false → trim_right p (c ∷ s) ≡ c ∷ trim_right p s
unfolding trim_right
trim_right-cons p c s e = ground arith

-- a text that ends off `p`
trim_right-off :
    (p : ℕ → Bool) (s : Text) (c : ℕ) → p c ≡ false → trim_right p (s ++ c ∷ []) ≡ s ++ c ∷ []
unfolding trim_right
trim_right-off p [] c e = ground arith
trim_right-off p (d ∷ []) c e = ground arith
trim_right-off p (d ∷ b ∷ s) c e = rw (trim_right-off p (b ∷ s) c e) refl

-- and one without `p`, with one more rune of `p` behind it
trim_right-on :
    (p : ℕ → Bool) (s : Text) (c : ℕ)
    → p c ≡ true
    → all (λ d. not (p d)) s ≡ true
    → trim_right p (s ++ c ∷ []) ≡ s
unfolding trim_right
trim_right-on p [] c e f = ground arith
trim_right-on p (d ∷ s) c e f = ground (arith, trim_right-on p s c)

other_line :
    (c : ℕ) (s : Text)
    → is_space c ≡ false
    → (c == b'p') ≡ false
    → line_password (b' ' ∷ b' ' ∷ c ∷ s) ≡ none
unfolding line_password trim_space trim trim_left has_prefix
other_line c s e f = rw e (rw (trim_right-cons is_space c s e) (rw f refl))

plain_line :
    (c : ℕ) (s : Text) → is_space c ≡ false → (c == b'p') ≡ false → line_password (c ∷ s) ≡ none
unfolding line_password trim_space trim trim_left has_prefix
plain_line c s e f = rw e (rw (trim_right-cons is_space c s e) (rw f refl))

doubled-eq : (s : Text) → all is_token_rune s ≡ true → doubled s ≡ s
unfolding replace_all
doubled-eq [] e = refl
doubled-eq (c ∷ s) e = ground (arith, doubled-eq s)

unquoted : (s : Text) → all is_token_rune s ≡ true → all (λ c. not (is_quote c)) s ≡ true
unquoted s e = all_mono is_token_rune (λ c. not (is_quote c)) s (λ c h. ground arith) e

-- what stands between the quotes of the password's line
abbrev password_line : Text → Text
password_line s = codes "  password: '" ++ (s ++ quote ∷ [])

trim_space-line :
    (s : Text) → trim_space (password_line s) ≡ codes "password: '" ++ (s ++ quote ∷ [])
unfolding trim_space trim trim_left is_space
trim_space-line s = trim_right-off is_space (codes "password: '" ++ s) quote refl

trim_space-value :
    (s : Text)
    → trim_space (trim_prefix (codes "password: '" ++ (s ++ quote ∷ [])) (codes "password:"))
      ≡ quote ∷ (s ++ quote ∷ [])
unfolding trim_space trim trim_left is_space trim_prefix has_prefix drop
trim_space-value s = trim_right-off is_space (quote ∷ s) quote refl

trim-quotes : (s : Text) → is_token s ≡ true → trim is_quote (quote ∷ (s ++ quote ∷ [])) ≡ s
unfolding trim trim_left
trim-quotes [] e = absurd (cc e)
trim-quotes (c ∷ s) e =
    let head : is_quote c ≡ false = ground arith in
    rw (head, trim_left) (trim_right-on is_quote (c ∷ s) quote refl (unquoted (c ∷ s) e))

token_line : (s : Text) → is_token s ≡ true → line_password (password_line s) ≡ some s
unfolding line_password has_prefix
token_line s e =
    let full : is_empty s ≡ false = ground arith in
    rw (trim_space-line s) (rw (trim_space-value s) (rw (trim-quotes s e) (rw full refl)))

is_line-doubled : (s : Text) → is_line s ≡ true → is_line (doubled s) ≡ true
unfolding replace_all
is_line-doubled [] e = refl
is_line-doubled (c ∷ s) e = ground (arith, is_line-doubled s)

is_line-quoted : (s : Text) → is_line s ≡ true → is_line (s ++ quote ∷ []) ≡ true
is_line-quoted s e = all-append (λ c. not (c == 10)) s (quote ∷ []) e refl

is_line-token : (s : Text) → is_token s ≡ true → is_line s ≡ true
is_line-token s e =
    let runes : all is_token_rune s ≡ true = ground arith in
    all_mono is_token_rune (λ c. not (c == 10)) s (λ c h. ground arith) runes

-- The Secret file of a name, a namespace and a user without line feeds reads back as its password,
-- where that is made of the characters of a generated password.
pub build_secret_yaml-parse :
    (name namespace username password : Text)
    → is_line name ≡ true
    → is_line namespace ≡ true
    → is_line username ≡ true
    → is_token password ≡ true
    → parse_secret_password (build_secret_yaml name namespace username password) ≡ ok password
unfolding build_secret_yaml secret_lines join is_space
build_secret_yaml-parse name namespace username password n ns u p =
    let runes : all is_token_rune password ≡ true = ground arith in
    skips (codes "apiVersion: v1") _ refl (plain_line _ _ refl refl)
    ∙ skips (codes "kind: Secret") _ refl (plain_line _ _ refl refl)
    ∙ skips (codes "metadata:") _ refl (plain_line _ _ refl refl)
    ∙ skips (codes "  name: " ++ name) _ n (other_line _ _ refl refl)
    ∙ skips (codes "  namespace: " ++ namespace) _ ns (other_line _ _ refl refl)
    ∙ skips (codes "type: kubernetes.io/basic-auth") _ refl (plain_line _ _ refl refl)
    ∙ skips (codes "stringData:") _ refl (plain_line _ _ refl refl)
    ∙ skips (codes "  username: " ++ single_quoted username) _
        (is_line-quoted (doubled username) (is_line-doubled username u)) (other_line _ _ refl refl)
    ∙ rw (doubled-eq password runes) (
        finds (password_line password) _ password
          (is_line-quoted password (is_line-token password p)) (token_line password p))
