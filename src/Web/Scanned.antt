-- ===== src/Web/Scanned.antt =====
-- The lines of the admin list that are logins (internal/web/identity.go, Reload).
use mathlib.Core.List.{Memᴰ}
use cnpg_portal.Prelude.{
  Text, codes, List, [], ◌∷◌, Option, none, some, false, ◌≡◌, ◌≢◌, ◌↔◌, refl, is_empty, arith, sym,
  subst,
}
use cnpg_portal.Result.{ok}
use cnpg_portal.Strings.{first?, has_prefix, split, trim_space}
use cnpg_portal.Web.Admins.{admin_line, admin_lines, scan_admins}

-- The line is the login with white space around it; a blank line and a comment are no login.
abbrev pub IsLogin : Text → Text → Type 0
IsLogin line login =
    (login ≡ trim_space line) × (is_empty login ≡ false) × (first? login ≢ some b'#')

abbrev pub Stands : List Text → Text → Type 0
Stands lines login = (line : Text) × Memᴰ line lines × IsLogin line login

hash_free : (l : Text) → has_prefix l (codes "#") ≡ false → first? l ≢ some b'#'
unfolding has_prefix first?
hash_free [] e = ground arith
hash_free (c ∷ l) e = ground arith

hash_first : (l : Text) → first? l ≢ some b'#' → has_prefix l (codes "#") ≡ false
unfolding has_prefix first?
hash_first [] e = refl
hash_first (c ∷ l) e = ground arith

admin_line-some : (line l : Text) → admin_line line ≡ some l → IsLogin line l
unfolding admin_line
admin_line-some line l e =
    let same : trim_space line ≡ l = ground arith in
    let full : is_empty (trim_space line) ≡ false = ground arith in
    let free : has_prefix (trim_space line) (codes "#") ≡ false = ground arith in
    (
      sym same,
      subst (λ t. is_empty t ≡ false) same full,
      subst (λ t. first? t ≢ some b'#') same (hash_free (trim_space line) free),
    )

admin_line-IsLogin : (line l : Text) → IsLogin line l → admin_line line ≡ some l
unfolding admin_line
admin_line-IsLogin line l (same, full, free) =
    let prefix = hash_first l free in rw (sym same) (rw full (rw prefix refl))

admin_lines-Stands :
    (lines : List Text) (login : Text) → Memᴰ login (admin_lines lines) → Stands lines login
unfolding admin_lines
admin_lines-Stands [] login m = elim m [ ]
admin_lines-Stands (line ∷ lines) login m =
    go (admin_line line) refl (admin_lines-Stands lines login) m
  where
    go :
        (o : Option Text)
        → admin_line line ≡ o
        → (Memᴰ login (admin_lines lines) → Stands lines login)
        → Memᴰ login (elim o [ none ↦ admin_lines lines | some l ↦ l ∷ admin_lines lines ])
        → Stands (line ∷ lines) login
    go none e k m = let (found, there, is) = k m in (found, Memᴰ.tail there, is)
    go (some l) e k (Memᴰ.head p) =
        (line, Memᴰ.head refl, subst (IsLogin line) (sym p) (admin_line-some line l e))
    go (some l) e k (Memᴰ.tail m) = let (found, there, is) = k m in (found, Memᴰ.tail there, is)

Stands-admin_lines :
    (lines : List Text) (login : Text) → Stands lines login → Memᴰ login (admin_lines lines)
unfolding admin_lines
Stands-admin_lines [] login (k, m, is) = elim m [ ]
Stands-admin_lines (line ∷ lines) login (k, Memᴰ.head p, is) =
    let here : admin_line line ≡ some login =
      admin_line-IsLogin line login (subst (λ t. IsLogin t login) p is) in
    rw (here, admin_lines) (Memᴰ.head refl)
Stands-admin_lines (line ∷ lines) login (k, Memᴰ.tail m, is) =
    go (admin_line line) (Stands-admin_lines lines login (k, m, is))
  where
    go :
        (o : Option Text)
        → Memᴰ login (admin_lines lines)
        → Memᴰ login (elim o [ none ↦ admin_lines lines | some l ↦ l ∷ admin_lines lines ])
    go none m = m
    go (some l) m = Memᴰ.tail m

-- A list of admins that has been read holds exactly the texts of the file's lines, without the white
-- space around them, of the lines that are not blank and whose text does not begin with a number
-- sign.
pub scan_admins-iff_Stands :
    (text login : Text) (logins : List Text)
    → scan_admins text ≡ ok logins
    → Memᴰ login logins ↔ Stands (split 10 text) login
unfolding scan_admins
scan_admins-iff_Stands text login logins e =
    let same : admin_lines (split 10 text) ≡ logins = ground arith in
    (
      λ m. admin_lines-Stands _ login (subst (Memᴰ login) (sym same) m),
      λ s. subst (Memᴰ login) same (Stands-admin_lines _ login s),
    )
