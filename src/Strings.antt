-- ===== src/Strings.antt =====
-- What the program uses of Go's standard `strings`, `strconv` and `unicode` packages, on texts as
-- lists of runes. `to_lower` follows `unicode.ToLower` wherever its result is in ASCII; the other
-- runes stay, since every caller goes on to drop them, to compare with ASCII or to refuse them; where
-- they are kept, as in the host of an origin, the lowering is a parameter.
pub mod Trim
pub mod Dashes
pub mod Decimal
use cnpg_portal.Prelude.{
  ℕ, ◌+◌, zero, suc, Text, String, codes, eq_text, List, [], ◌∷◌, ◌++◌, map, Bool, true, false,
  ◌&&◌, ◌||◌, Option, none, some, ltb, leb, ◌==◌, if◌then◌else◌, is_empty, length,
}

unfoldable pub to_lower_rune : ℕ → ℕ
to_lower_rune c =
    if leb b'A' c && leb c b'Z'
    then c + 32
    else if c == 0x212a
    then b'k'
    else if c == 0x130
    then b'i'
    else c

unfoldable pub to_lower : Text → Text
unfolding to_lower_rune
to_lower s = map to_lower_rune s

-- unicode.IsSpace
unfoldable pub is_space : ℕ → Bool
is_space c =
    (leb 9 c && leb c 13)
    || c == 32
    || c == 0x85
    || c == 0xa0
    || c == 0x1680
    || (leb 0x2000 c && leb c 0x200a)
    || c == 0x2028
    || c == 0x2029
    || c == 0x202f
    || c == 0x205f
    || c == 0x3000

unfoldable pub trim_left : (ℕ → Bool) → Text → Text
trim_left p [] = []
trim_left p (c ∷ s) = let rest = trim_left p s in if p c then rest else c ∷ s

unfoldable pub trim_right : (ℕ → Bool) → Text → Text
trim_right p [] = []
trim_right p (c ∷ s) = let rest = trim_right p s in if is_empty rest && p c then [] else c ∷ rest

-- strings.TrimFunc
unfoldable pub trim : (ℕ → Bool) → Text → Text
unfolding trim_left trim_right
trim p s = trim_right p (trim_left p s)

unfoldable pub trim_space : Text → Text
unfolding trim is_space
trim_space s = trim is_space s

-- strings.ReplaceAll for a pattern of one rune
unfoldable pub replace_all : ℕ → Text → Text → Text
replace_all c to [] = []
replace_all c to (d ∷ s) = (if d == c then to else d ∷ []) ++ replace_all c to s

unfoldable pub has_prefix : Text → Text → Bool
has_prefix s [] = true
has_prefix [] (c ∷ p) = false
has_prefix (d ∷ s) (c ∷ p) = d == c && has_prefix s p

-- `has_suffix s p`: some tail of `s` is `p`
unfoldable pub has_suffix : Text → Text → Bool
unfolding eq_text
has_suffix [] p = eq_text [] p
has_suffix (c ∷ s) p = eq_text (c ∷ s) p || has_suffix s p

unfoldable pub drop : ℕ → Text → Text
drop zero s = s
drop (suc n) [] = []
drop (suc n) (c ∷ s) = drop n s

-- strings.TrimPrefix
unfoldable pub trim_prefix : Text → Text → Text
unfolding has_prefix drop
trim_prefix s p = if has_prefix s p then drop (length p) s else s

unfoldable pub contains_any : Text → (ℕ → Bool) → Bool
contains_any [] p = false
contains_any (c ∷ s) p = p c || contains_any s p

-- strings.LastIndex for a pattern of one rune, `none` for -1
unfoldable pub last_index : ℕ → Text → Option ℕ
last_index c [] = none
last_index c (d ∷ s) = elim (last_index c s) [
  | some i ↦ some (suc i)
  | none ↦ if d == c then some 0 else none
]

abbrev pub add_head : ℕ → List Text → List Text
add_head c [] = (c ∷ []) ∷ []
add_head c (part ∷ parts) = (c ∷ part) ∷ parts

-- strings.Split at one rune: there is always at least one part
unfoldable pub split : ℕ → Text → List Text
split sep [] = [] ∷ []
split sep (c ∷ s) = let parts = split sep s in if c == sep then [] ∷ parts else add_head c parts

unfoldable pub join : Text → List Text → Text
join sep [] = []
join sep (s ∷ []) = s
join sep (s ∷ t ∷ more) = s ++ (sep ++ join sep (t ∷ more))

-- the first and the last rune of a text
unfoldable pub first? : Text → Option ℕ
first? [] = none
first? (c ∷ s) = some c

unfoldable pub last? : Text → Option ℕ
last? [] = none
last? (c ∷ []) = some c
last? (c ∷ d ∷ s) = last? (d ∷ s)

-- strings.TrimSuffix for a suffix of one rune
unfoldable pub trim_last : ℕ → Text → Text
trim_last c [] = []
trim_last c (d ∷ []) = if d == c then [] else d ∷ []
trim_last c (d ∷ e ∷ s) = d ∷ trim_last c (e ∷ s)

-- the words of `word ++ s`, `word` being the word that has been begun
unfoldable pub words_from : Text → Text → List Text
unfolding is_space
words_from [] [] = []
words_from (d ∷ word) [] = (d ∷ word) ∷ []
words_from word (c ∷ s) =
    let longer = words_from (word ++ c ∷ []) s in
    let next = words_from [] s in
    if is_space c then if is_empty word then next else word ∷ next else longer

-- strings.Fields
unfoldable pub words : Text → List Text
unfolding words_from
words s = words_from [] s
