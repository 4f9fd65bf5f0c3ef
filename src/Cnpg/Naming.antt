-- ===== src/Cnpg/Naming.antt =====
-- internal/cnpg/cluster.go: the name of a recovery cluster.
use cnpg_portal.Prelude.{
  length-take, length-append, ◌++◌, ◌%◌, ◌≤◌, ◌∷◌, Text, ℕ, length, ◌≡◌, arith, zero, suc, [], List,
  take, false, is_empty, refl, Bool,
}
use cnpg_portal.Strings.{trim_right}
use cnpg_portal.Names.{dns1123_base, is_dash}
use cnpg_portal.Cnpg.{restore_prefix, hex4, recovery_cluster_name}

is_empty-append : (s t : Text) → is_empty t ≡ false → is_empty (s ++ t) ≡ false
is_empty-append [] t n = n
is_empty-append (c ∷ s) t n = refl

trim_right-append :
    (p : ℕ → Bool) (s t : Text)
    → is_empty t ≡ false
    → trim_right p t ≡ t
    → trim_right p (s ++ t) ≡ s ++ t
unfolding trim_right
trim_right-append p [] t n e = e
trim_right-append p (c ∷ s) t n e =
    ground (arith, trim_right-append p s t n e, is_empty-append s t n)

abbrev stamp : ℕ → Text
stamp now = b'-' ∷ hex4 (now % 65536)

trim_right-stamp : (now : ℕ) → trim_right is_dash (stamp now) ≡ stamp now
unfolding trim_right hex4
trim_right-stamp now = ground arith

take-eq : {A : Type 0} (n : ℕ) (xs : List A) → length xs ≤ n → take n xs ≡ xs
take-eq zero [] l = refl
take-eq zero (x ∷ xs) l = absurd (omega arith)
take-eq (suc n) [] l = refl
take-eq (suc n) (x ∷ xs) l = rw (take-eq n xs (omega arith)) refl

-- The name that is put together, before the two cuts at its end.
abbrev full_name : Text → ℕ → Text
full_name app now = restore_prefix ++ (take 47 (dns1123_base app) ++ stamp now)

full_name-fits : (app : Text) (now : ℕ) → length (full_name app now) ≤ 63
unfolding hex4
full_name-fits app now = omega (
  arith,
  length-append (take 47 (dns1123_base app)) (stamp now),
  length-take 47 (dns1123_base app),
)

-- The name of a recovery cluster keeps the time's four digits at its end, whatever the length of
-- the app's name, and has at most 63 characters.
pub recovery_cluster_name-eq :
    (app : Text) (now : ℕ)
    → (recovery_cluster_name app now
        ≡ restore_prefix ++ (take 47 (dns1123_base app) ++ b'-' ∷ hex4 (now % 65536)))
      × (length (recovery_cluster_name app now) ≤ 63)
unfolding recovery_cluster_name
recovery_cluster_name-eq app now =
    let e : recovery_cluster_name app now ≡ full_name app now =
      rw (take-eq 63 (full_name app now) (full_name-fits app now)) (
        trim_right-append is_dash restore_prefix _ (is_empty-append _ (stamp now) refl)
          (trim_right-append is_dash _ (stamp now) refl (trim_right-stamp now))) in
    (e, rw e (full_name-fits app now))
