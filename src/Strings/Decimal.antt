-- ===== src/Strings/Decimal.antt =====
-- `%d`, and `strconv.ParseInt` and `strconv.Atoi` as their callers use them.
use Prim.Native.Nat.{◌-◌}
use cnpg_portal.Prelude.{
  Bool-cases, inl, inr, ℕ, zero, suc, ◌+◌, ◌*◌, ◌/◌, ◌%◌, ◌^◌, Text, ℤ, pos, neg, ◌≡◌, refl, [],
  ◌∷◌, Bool, true, Option, none, some, ◌&&◌, leb, ltb, not, is_empty, ◌==◌, if◌then◌else◌, arith,
  all,
}

unfoldable pub is_digit : ℕ → Bool
is_digit c = leb b'0' c && leb c b'9'

-- the digits of `n` in front of `rest`, on fuel
digits_onto : ℕ → ℕ → Text → Text
digits_onto zero n rest = rest
digits_onto (suc fuel) n rest =
    let here = (b'0' + n % 10) ∷ rest in
    let more = digits_onto fuel (n / 10) here in if ltb n 10 then here else more

-- fmt.Sprintf("%d", n): a number has at most `n + 1` digits
unfoldable pub itoa : ℕ → Text
unfolding digits_onto
itoa n = digits_onto (suc n) n []

abbrev pub max_uint64 : ℕ
max_uint64 = 2 ^ 64 - 1

-- The loop of `strconv.ParseUint`. A number out of range ends it at once with the largest value;
-- `none` is a syntax error.
unfoldable pub parse_uint : ℕ → Text → Option ℕ
unfolding is_digit
parse_uint n [] = some n
parse_uint n (c ∷ s) =
    let next = n * 10 + (c - b'0') in
    let more = parse_uint next s in
    if is_digit c then if ltb max_uint64 next then some max_uint64 else more else none

abbrev clamp_pos : Option ℕ → ℤ
clamp_pos none = pos 0
clamp_pos (some n) = if leb (2 ^ 63) n then pos (2 ^ 63 - 1) else pos n

abbrev clamp_neg : Option ℕ → ℤ
clamp_neg none = pos 0
clamp_neg (some n) = if ltb (2 ^ 63) n then neg (2 ^ 63) else neg n

unsigned : Text → Option ℕ
unfolding parse_uint
unsigned [] = none
unsigned (c ∷ s) = parse_uint 0 (c ∷ s)

-- the value of strconv.ParseInt(s, 10, 64), which is 0 where it reports a syntax error
unfoldable pub parse_int : Text → ℤ
unfolding unsigned
parse_int [] = pos 0
parse_int (c ∷ s) =
    if c == b'-'
    then clamp_neg (unsigned s)
    else if c == b'+'
    then clamp_pos (unsigned s)
    else clamp_pos (unsigned (c ∷ s))

abbrev int_pos : Option ℕ → Option ℤ
int_pos none = none
int_pos (some n) = if leb (2 ^ 63) n then none else some (pos n)

abbrev int_neg : Option ℕ → Option ℤ
int_neg none = none
int_neg (some n) = if ltb (2 ^ 63) n then none else some (neg n)

-- strconv.Atoi on a machine whose int has 64 bits: `none` is an error, of syntax or of range
unfoldable pub atoi : Text → Option ℤ
unfolding unsigned
atoi [] = none
atoi (c ∷ s) =
    if c == b'-'
    then int_neg (unsigned s)
    else if c == b'+'
    then int_pos (unsigned s)
    else int_pos (unsigned (c ∷ s))

-- the value of a text of digits that comes behind `n`
unfoldable pub decimal : ℕ → Text → ℕ
decimal n [] = n
decimal n (c ∷ s) = decimal (n * 10 + (c - b'0')) s

abbrev without_plus : Text → Text
without_plus [] = []
without_plus (c ∷ s) = if c == b'+' then s else c ∷ s

-- an optional plus sign, and behind it digits with a value from 1 to 2^63 - 1
unfoldable pub is_positive_int : Text → Bool
unfolding decimal is_digit
is_positive_int s =
    let digits = without_plus s in
    not (is_empty digits)
    && all is_digit digits
    && ltb 0 (decimal 0 digits)
    && ltb (decimal 0 digits) (2 ^ 63)

parse_uint-eq :
    (n : ℕ) (s : Text) (m : ℕ)
    → parse_uint n s ≡ some m
    → ltb m (2 ^ 63) ≡ true
    → (all is_digit s ≡ true) × (decimal n s ≡ m)
unfolding parse_uint decimal
parse_uint-eq n [] m e h = (refl, cc e)
parse_uint-eq n (c ∷ s) m e h = ground (arith, parse_uint-eq (n * 10 + (c - b'0')) s m)

int_pos-eq :
    (o : Option ℕ) (n : ℕ) → int_pos o ≡ some (pos n) → (o ≡ some n) × (ltb n (2 ^ 63) ≡ true)
int_pos-eq none n e = absurd (cc e)
int_pos-eq (some m) n e = ground arith

int_neg-zero : (o : Option ℕ) (n : ℕ) → int_neg o ≡ some (pos n) → ltb 0 n ≡ true → ⊥
int_neg-zero none n e h = absurd (cc e)
int_neg-zero (some zero) n e h = ground arith
int_neg-zero (some (suc m)) n e h = ground arith

module _ (n : ℕ) (positive : ltb 0 n ≡ true) where
  unsigned-is_value :
      (s : Text)
      → (unsigned s ≡ some n) × (ltb n (2 ^ 63) ≡ true)
      → (not (is_empty s) && all is_digit s && ltb 0 (decimal 0 s) && ltb (decimal 0 s) (2 ^ 63))
        ≡ true
  unfolding unsigned
  unsigned-is_value [] (e, h) = absurd (cc e)
  unsigned-is_value (c ∷ s) (e, h) =
      let (digits, value) = parse_uint-eq 0 (c ∷ s) n e h in rw digits (rw value (rw positive h))

  -- A text that Atoi reads as a positive number is a positive number of 64 bits.
  pub is_positive_int-atoi : (s : Text) → atoi s ≡ some (pos n) → is_positive_int s ≡ true
  unfolding atoi is_positive_int
  is_positive_int-atoi [] e = absurd (cc e)
  is_positive_int-atoi (c ∷ s) e = elim (Bool-cases (c == b'-')) [
    | inl m ↦
        let f : int_neg (unsigned s) ≡ some (pos n) = ground arith in
        absurd (int_neg-zero (unsigned s) n f positive)
    | inr m ↦ elim (Bool-cases (c == b'+')) [
      | inl p ↦
          let f : int_pos (unsigned s) ≡ some (pos n) = ground arith in
          rw p (unsigned-is_value s (int_pos-eq _ n f))
      | inr p ↦
          let f : int_pos (unsigned (c ∷ s)) ≡ some (pos n) = ground arith in
          rw p (unsigned-is_value (c ∷ s) (int_pos-eq _ n f))
    ]
  ]

digits_onto-all :
    (fuel n : ℕ) (rest : Text)
    → all is_digit rest ≡ true
    → all is_digit (digits_onto fuel n rest) ≡ true
unfolding digits_onto is_digit
digits_onto-all zero n rest h = h
digits_onto-all (suc fuel) n rest h =
    ground (arith, digits_onto-all fuel (n / 10) ((b'0' + n % 10) ∷ rest))

pub itoa-all : (n : ℕ) → all is_digit (itoa n) ≡ true
unfolding itoa
itoa-all n = digits_onto-all (suc n) n [] refl
