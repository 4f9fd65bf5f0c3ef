-- ===== src/Web/Admins.antt =====
-- internal/web/identity.go: the list of the admins, and the gate that reads it. A read of the file
-- is a call of the outside; the lock makes every operation one step.
use cnpg_portal.Prelude.{
  Text, codes, List, [], ◌∷◌, Bool, false, ◌||◌, ◌&&◌, not, ltb, Option, none, some, if◌then◌else◌,
  is_empty, eq_text, length,
}
use cnpg_portal.Result.{is_missing, Result, ok, err, external}
use cnpg_portal.World.{read_file, ask_text, World, Exec}
use cnpg_portal.World.Chain.{lift, pure, outcome, ◌>>=◌}
use cnpg_portal.Strings.{has_prefix, split, trim_space}
use cnpg_portal.Url.Escaped.{bytes_of}

pub record AdminList : Type 0 where
  pub logins : List Text
  pub path : Text
  pub bearer_admin : Text

unfoldable pub member : Text → List Text → Bool
member login [] = false
member login (l ∷ ls) = eq_text l login || member login ls

unfoldable pub has : AdminList → Text → Bool
unfolding member
has a login =
    (not (is_empty a.bearer_admin) && eq_text login a.bearer_admin) || member login a.logins

unfoldable pub set_bearer_admin : Text → AdminList → AdminList
set_bearer_admin login a = record a { bearer_admin = login }

unfoldable pub grant_dev_fallback : Text → AdminList → AdminList
grant_dev_fallback login a =
    if not (is_empty a.path) || is_empty login then a else record a { logins = login ∷ a.logins }

-- a line that is neither blank nor a comment, trimmed
unfoldable pub admin_line : Text → Option Text
admin_line line =
    let l = trim_space line in if is_empty l || has_prefix l (codes "#") then none else some l

unfoldable pub admin_lines : List Text → List Text
unfolding admin_line
admin_lines [] = []
admin_lines (line ∷ lines) = elim (admin_line line) [
  | none ↦ admin_lines lines
  | some l ↦ l ∷ admin_lines lines
]

-- bufio.Scanner gives up on a line of more than 65535 bytes
unfoldable pub has_long_line : List Text → Bool
has_long_line [] = false
has_long_line (line ∷ lines) = ltb 65535 (length (bytes_of line)) || has_long_line lines

unfoldable pub scan_admins : Text → Result (List Text)
unfolding admin_lines has_long_line
scan_admins text =
    if has_long_line (split 10 text)
    then err (external (codes "bufio.Scanner: token too long"))
    else ok (admin_lines (split 10 text))

-- what Reload makes of the answer to the opening and reading of the file
unfoldable pub reloaded : AdminList → Result Text → Result AdminList
unfolding scan_admins
reloaded a (err e) = if is_missing e then ok (record a { logins = [] }) else err e
reloaded a (ok text) = elim (scan_admins text) [
  | err e ↦ err e
  | ok logins ↦ ok (record a { logins = logins })
]

unfoldable pub reload_or_keep : AdminList → Result AdminList → AdminList
reload_or_keep a (ok b) = b
reload_or_keep a (err e) = a

module _ (w : World) where
  unfoldable pub reload : AdminList → Exec AdminList
  unfolding reloaded
  reload a =
      if is_empty a.path
      then pure a
      else outcome (ask_text w (read_file a.path)) >>= λ answer. lift (reloaded a answer)

  unfoldable pub new_admin_list : Text → Exec AdminList
  unfolding reload
  new_admin_list path = reload (record { logins = []; path = path; bearer_admin = [] })

  -- a SIGHUP: an error of the reload is logged, and the list stays
  unfoldable pub on_sighup : AdminList → Exec AdminList
  unfolding reload
  on_sighup a = outcome (reload a) >>= λ r. pure (reload_or_keep a r)

-- admins == nil || !admins.Has(id.Login)
unfoldable pub is_admin : Option AdminList → Text → Bool
unfolding has
is_admin none login = false
is_admin (some a) login = has a login
