-- ===== src/Web/Authorities.antt =====
-- The host and the port that an authority is read back as (internal/web/server.go,
-- canonicalOrigin).
use cnpg_portal.Prelude.{
  all_mono, ◌≢◌, ◌⊎◌, append-nil, append_assoc, ℕ, Text, [], ◌∷◌, ◌++◌, Bool, true, false, not,
  ◌==◌, all, ◌≡◌, refl, sym, ◌∙◌, ap, if◌then◌else◌, Bool-cases, inl, inr, arith,
}
use cnpg_portal.Strings.Decimal.{is_digit}
use cnpg_portal.Strings.{contains_any, drop}
use cnpg_portal.Tenant.Addresses.{cut-append, cut}
use cnpg_portal.Web.Origin.{authority}

abbrev has_colon : Text → Bool
has_colon host = contains_any host λ c. c == b':'

abbrev has_none : ℕ → Text → Bool
has_none d s = all (λ c. not (c == d)) s

-- a port as the library gives it, which is numeric or ""
abbrev pub is_port : Text → Bool
is_port s = all is_digit s

-- an authority is a host and what follows it
abbrev host_text : Text → Text
host_text host = if has_colon host then b'[' ∷ (host ++ b']' ∷ []) else host

abbrev suffix : Text → Text
suffix [] = []
suffix (c ∷ port) = b':' ∷ c ∷ port

authority-eq : (host port : Text) → authority host port ≡ host_text host ++ suffix port
unfolding authority
authority-eq host [] = sym (append-nil (host_text host))
authority-eq host (c ∷ port) = refl

cut-free : (d : ℕ) (s : Text) → has_none d s ≡ true → cut d s ≡ (s, [])
unfolding cut
cut-free d [] e = refl
cut-free d (c ∷ s) e = ground (arith, cut-free d s)

no_colon : (host : Text) → has_colon host ≡ false → has_none b':' host ≡ true
unfolding contains_any
no_colon [] e = refl
no_colon (c ∷ host) e = ground (arith, no_colon host)

cut-suffix :
    (host port : Text) → has_colon host ≡ false → cut b':' (host ++ suffix port) ≡ (host, port)
cut-suffix host [] e = rw (append-nil host) (cut-free b':' host (no_colon host e))
cut-suffix host (c ∷ port) e = cut-append b':' host (c ∷ port) (no_colon host e)

has_none-middle : (d : ℕ) (s t : Text) → has_none d (s ++ d ∷ t) ≡ false
has_none-middle d [] t = ground arith
has_none-middle d (c ∷ s) t = ground (arith, has_none-middle d s t)

-- behind the first colon of a host in brackets there is a bracket
bracket_behind :
    (host s : Text) → has_colon host ≡ true → has_none b']' (cut b':' (host ++ b']' ∷ s)).1 ≡ false
unfolding cut contains_any
bracket_behind [] s e = absurd (cc e)
bracket_behind (c ∷ host) s e = ground (arith, bracket_behind host s, has_none-middle b']' host s)

-- two texts that are cut at their last bracket
last_bracket :
    (h k s t : Text)
    → has_none b']' s ≡ true
    → has_none b']' t ≡ true
    → h ++ b']' ∷ s ≡ k ++ b']' ∷ t
    → (h ≡ k) × (s ≡ t)
last_bracket [] [] s t e f p = (refl, cc p)
last_bracket [] (c ∷ k) s t e f p =
    let q : s ≡ k ++ b']' ∷ t = cc p in
    absurd (cc (ap (has_none b']') q, e, has_none-middle b']' k t))
last_bracket (c ∷ h) [] s t e f p =
    let q : h ++ b']' ∷ s ≡ t = cc p in
    absurd (cc (ap (has_none b']') q, f, has_none-middle b']' h s))
last_bracket (c ∷ h) (d ∷ k) s t e f p =
    let q : h ++ b']' ∷ s ≡ k ++ b']' ∷ t = cc p in
    let r : c ≡ d = cc p in let (same, rest) = last_bracket h k s t e f q in (cc (r, same), rest)

port-has_none : (port : Text) → is_port port ≡ true → has_none b']' port ≡ true
port-has_none port e =
    all_mono is_digit (λ c. not (c == b']')) port (λ c h. unfold is_digit in ground arith) e

suffix-has_none : (port : Text) → is_port port ≡ true → has_none b']' (suffix port) ≡ true
suffix-has_none [] e = refl
suffix-has_none (c ∷ port) e = port-has_none (c ∷ port) e

suffix-injective : (p q : Text) → suffix p ≡ suffix q → p ≡ q
suffix-injective [] [] e = refl
suffix-injective [] (c ∷ q) e = absurd (cc e)
suffix-injective (c ∷ p) [] e = absurd (cc e)
suffix-injective (c ∷ p) (d ∷ q) e = cc e

-- a host in brackets is no host without
brackets_differ :
    (h k p q : Text)
    → has_colon h ≡ true
    → has_colon k ≡ false
    → is_port q ≡ true
    → b'[' ∷ (h ++ b']' ∷ suffix p) ≢ k ++ suffix q
unfolding cut
brackets_differ h k p q c d e f =
    let port = ap (λ t. has_none b']' t.1) (cut-suffix k q d) in
    cc (bracket_behind h (suffix p) c, f, port, port-has_none q e)

bracketed :
    (host port : Text)
    → has_colon host ≡ true
    → host_text host ++ suffix port ≡ b'[' ∷ (host ++ b']' ∷ suffix port)
bracketed host port e = rw e (ap (λ t. b'[' ∷ t) (append_assoc host (b']' ∷ []) (suffix port)))

bare :
    (host port : Text)
    → has_colon host ≡ false
    → host_text host ++ suffix port ≡ host ++ suffix port
bare host port e = rw e refl

pub authority-injective :
    (h k p q : Text)
    → is_port p ≡ true
    → is_port q ≡ true
    → authority h p ≡ authority k q
    → (h ≡ k) × (p ≡ q)
unfolding drop
authority-injective h k p q dp dq e =
    go (sym (authority-eq h p) ∙ (e ∙ authority-eq k q)) (Bool-cases (has_colon h))
      (Bool-cases (has_colon k))
  where
    go :
        host_text h ++ suffix p ≡ host_text k ++ suffix q
        → (has_colon h ≡ true) ⊎ (has_colon h ≡ false)
        → (has_colon k ≡ true) ⊎ (has_colon k ≡ false)
        → (h ≡ k) × (p ≡ q)
    go f (inl c) (inl d) =
        let g : h ++ b']' ∷ suffix p ≡ k ++ b']' ∷ suffix q =
          ap (drop 1) (sym (bracketed h p c) ∙ (f ∙ bracketed k q d)) in
        let (same, ports) =
          last_bracket h k (suffix p) (suffix q) (suffix-has_none p dp) (suffix-has_none q dq) g in
        (same, suffix-injective p q ports)
    go f (inl c) (inr d) =
        absurd (brackets_differ h k p q c d dq (sym (bracketed h p c) ∙ (f ∙ bare k q d)))
    go f (inr c) (inl d) =
        absurd (brackets_differ k h q p d c dp (sym (bracketed k q d) ∙ (sym f ∙ bare h p c)))
    go f (inr c) (inr d) =
        let g = sym (bare h p c) ∙ (f ∙ bare k q d) in
        let both = sym (cut-suffix h p c) ∙ (ap (cut b':') g ∙ cut-suffix k q d) in
        (λ i. (both i).0, λ i. (both i).1)
