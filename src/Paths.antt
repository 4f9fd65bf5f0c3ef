-- ===== src/Paths.antt =====
-- What the program uses of Go's `path/filepath` on Unix: `Clean`, `Join` and `IsAbs` are lexical.
pub mod Inside
pub mod Joining
use cnpg_portal.Prelude.{
  Text, codes, eq_text, List, [], ◌∷◌, ◌++◌, reverse, Bool, true, false, ◌||◌, if◌then◌else◌,
}
use cnpg_portal.Strings.{split, join, has_prefix}

abbrev pub slash : Text
slash = codes "/"

abbrev pub dot : Text
dot = codes "."

abbrev pub dotdot : Text
dotdot = codes ".."

-- `..` takes the name before it away; at the front it stays, unless the path is rooted
unfoldable pub go_up : Bool → List Text → List Text
go_up true [] = []
go_up false [] = dotdot ∷ []
go_up rooted (top ∷ stack) = if eq_text top dotdot then dotdot ∷ top ∷ stack else stack

-- one name of the path; the stack has the last name at its head
unfoldable pub clean_step : Bool → List Text → Text → List Text
unfolding go_up
clean_step rooted stack part =
    if eq_text part [] || eq_text part dot
    then stack
    else if eq_text part dotdot
    then go_up rooted stack
    else part ∷ stack

unfoldable pub clean_parts : Bool → List Text → List Text → List Text
unfolding clean_step
clean_parts rooted stack [] = stack
clean_parts rooted stack (part ∷ parts) = clean_parts rooted (clean_step rooted stack part) parts

abbrev pub or_dot : Text → Text
or_dot [] = dot
or_dot (c ∷ s) = c ∷ s

unfoldable pub is_abs : Text → Bool
unfolding has_prefix
is_abs path = has_prefix path slash

abbrev pub render : Bool → List Text → Text
render true parts = slash ++ join slash parts
render false parts = or_dot (join slash parts)

-- filepath.Clean
unfoldable pub clean : Text → Text
unfolding clean_parts is_abs
clean path = render (is_abs path) (reverse (clean_parts (is_abs path) [] (split b'/' path)))

-- filepath.Join: empty elements at the front are left out
unfoldable pub join_path : List Text → Text
unfolding clean
join_path [] = []
join_path ([] ∷ more) = join_path more
join_path ((c ∷ s) ∷ more) = clean (join slash ((c ∷ s) ∷ more))
