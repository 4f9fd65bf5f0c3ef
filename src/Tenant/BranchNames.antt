-- ===== src/Tenant/BranchNames.antt =====
-- The name that the portal proposes for a branch.
use cnpg_portal.Prelude.{
  length-take, suc, length-append, all-take, false, all-append, ◌==◌, ◌-◌, ◌≤◌, Text, ℕ, length,
  take, all, ◌≡◌, refl, true, arith, ◌∷◌, [], ◌++◌, codes,
}
use cnpg_portal.Names.{is_lower, ident_safe, database_name_safe, ident_rune, database_rune}
use cnpg_portal.Tenant.Clone.{first_safe, default_branch_destination, underscored, shortened}
use cnpg_portal.Strings.{replace_all}

length-underscored : (s : Text) → length (underscored s) ≡ length s
unfolding replace_all
length-underscored [] = refl
length-underscored (c ∷ s) = ground (arith, length-underscored s)

all-underscored : (s : Text) → all database_rune s ≡ true → all ident_rune (underscored s) ≡ true
unfolding replace_all
all-underscored [] e = refl
all-underscored (c ∷ s) e = ground (arith, all-underscored s)

shortened-eq :
    (c : ℕ) (s suffix : Text)
    → is_lower c ≡ true
    → length suffix ≤ 62
    → shortened (underscored (c ∷ s)) suffix
      ≡ c ∷ (take (62 - length suffix) (underscored s) ++ suffix)
unfolding replace_all
shortened-eq c s suffix e l =
    let p : (c == b'-') ≡ false = ground arith in
    let q : (63 - length suffix) ≡ suc (62 - length suffix) = omega arith in rw (p, q) refl

-- a safe name whose hyphens are underscores is cut and extended to a safe name
shortened-ident_safe :
    (s suffix : Text)
    → database_name_safe s ≡ true
    → all ident_rune suffix ≡ true
    → length suffix ≤ 62
    → ident_safe (shortened (underscored s) suffix) ≡ true
unfolding database_name_safe ident_safe
shortened-ident_safe [] suffix e a l = absurd (cc e)
shortened-ident_safe (c ∷ s) suffix e a l =
    let cut = take (62 - length suffix) (underscored s) in
    let runes : all ident_rune (cut ++ suffix) ≡ true =
      all-append ident_rune cut suffix
        (all-take ident_rune (62 - length suffix) (underscored s)
          (all-underscored s (ground arith)))
        a in
    let fits : length (cut ++ suffix) ≤ 62 =
      omega (arith, length-append cut suffix, length-take (62 - length suffix) (underscored s)) in
    rw (shortened-eq c s suffix (ground arith) l) (ground arith)

-- The name that is proposed for a branch of a valid database is a valid name of a new tenant.
pub default_branch_destination-ident_safe :
    (src : Text)
    → database_name_safe src ≡ true
    → ident_safe (default_branch_destination src) ≡ true
unfolding default_branch_destination first_safe
default_branch_destination-ident_safe src e =
    let safe = shortened-ident_safe src (codes "_dev") e refl (omega arith) in rw (e, safe) safe
