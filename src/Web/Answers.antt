-- ===== src/Web/Answers.antt =====
-- internal/web/handlers.go: the checks and the answers that the changing handlers share.
use cnpg_portal.Prelude.{
  negsuc, pos, Text, codes, ℕ, [], ◌++◌, Bool, true, false, not, Option, none, some, if◌then◌else◌,
  eq_text, take, ltb,
}
use cnpg_portal.Result.{wrapped, Error, Result, ok, err, err_backup_failed}
use cnpg_portal.World.{Exec, Backup}
use cnpg_portal.World.Chain.{pure}
use cnpg_portal.Tenant.{is_complete, Tenant}
use cnpg_portal.Web.{Request}
use cnpg_portal.Web.Pages.{
  route_path, redirect, no_deps, backup_status, error_text, render_error, html, check, Page, Reply,
  Handlers, Context,
}
use cnpg_portal.Strings.{trim_space}
use cnpg_portal.Names.{database_name_safe, ident_safe}
use cnpg_portal.Strings.Decimal.{atoi}
use cnpg_portal.Tenant.Clone.{default_branch_destination}

-- The libraries' part, and how often the polls tick before their contexts end: the check of a
-- Backup's name, RFC 3339 both ways, and the time in the name of a dump.
pub record Platform : Type 0 where
  pub ok_name : Text → Bool
  pub show_time : ℕ → Text
  pub parse_time : Text → Result Text
  pub file_stamp : ℕ → Text
  pub backup_ticks : ℕ
  pub pod_ticks : ℕ
  pub probe_ticks : ℕ

-- `t, err := …; if err != nil { … }`, the error that comes with a tenant too
unfoldable pub tenant_or_error : Result (Tenant × Result (Unit {0})) → Result Tenant
tenant_or_error (err e) = err e
tenant_or_error (ok (t, err e)) = err e
tenant_or_error (ok (t, ok u)) = ok t

-- the page of a result, or the error page
unfoldable pub answer_with {ℓ} : {A : Type ℓ} → Context → Text → (A → Page) → Result A → Exec Reply
answer_with x title page (err e) = pure (render_error x 500 title (error_text e))
answer_with x title page (ok a) = pure (html 200 (page a))

unfoldable pub answer_tenant :
    Context → Text → (Tenant → Page) → Result (Tenant × Result (Unit {0})) → Exec Reply
unfolding tenant_or_error answer_with
answer_tenant x title page r = answer_with x title page (tenant_or_error r)

-- io.ReadFull of five bytes, compared with "PGDMP"
unfoldable pub is_custom_dump : Text → Bool
is_custom_dump dump = eq_text (take 5 dump) (codes "PGDMP")

abbrev pub confirm_rule : Text
confirm_rule = codes "Confirmation must exactly match tenant name."

-- h.Deps.K8s == nil || h.Deps.PG == nil || h.Deps.Workspace == nil
abbrev pub with_deps : Handlers → Context → Exec Reply → Exec Reply
with_deps h x rest = check (is_complete h.deps) (no_deps x) rest

-- the value of a field, trimmed
abbrev pub field : (Text → Text) → Text → Text
field form name = trim_space (form name)

-- the message of the switch on the destination, or "" where it is fine
unfoldable pub branch_fault : Text → Text → Text
branch_fault src dst =
    if eq_text dst src
    then codes "Destination must be different from the source tenant."
    else if not (ident_safe dst)
    then codes
        "Use a lowercase name: start with a letter, then letters, digits, or underscore only (max 63 characters). Example: "
      ++ (default_branch_destination src ++ codes ".")
    else []

unfoldable pub sync_fault : Text → Text → Text → Text
sync_fault src dst confirm =
    if not (database_name_safe src)
    then codes "Choose a source tenant from the list."
    else if eq_text src dst
    then codes "Source must be different from the destination tenant."
    else if not (eq_text confirm dst)
    then codes "Confirmation must exactly match the destination tenant name."
    else []

-- pid, err := strconv.Atoi(…); err != nil || pid <= 0
unfoldable pub positive_pid : Text → Option ℕ
unfolding atoi
positive_pid s = elim (atoi s) [
  | none ↦ none
  | some z ↦ elim z [ pos n ↦ if ltb 0 n then some n else none | negsuc n ↦ none ]
]

-- renderBackupResult: a plain form is redirected, htmx gets the partial
unfoldable pub backup_result : Handlers → Request → Option Backup → Text → Reply
backup_result h q b msg =
    if eq_text (q.header (codes "HX-Request")) (codes "true")
    then html 200 (backup_status b msg)
    else html 303 (redirect (route_path h (codes "/")))

unfoldable pub failed_text : Text → Backup → Text
failed_text namespace b =
    codes "backup "
    ++ (b.name
        ++ (codes " failed (kubectl describe backup -n "
            ++ (namespace ++ (codes " " ++ (b.name ++ codes ")")))))

unfoldable pub is_backup_failed : Error → Bool
is_backup_failed err_backup_failed = true
is_backup_failed (wrapped t e) = is_backup_failed e
is_backup_failed _ = false

-- what follows the wait for a backup
unfoldable pub waited : Handlers → Request → Text → Result (Backup × Result (Unit {0})) → Exec Reply
unfolding backup_result failed_text is_backup_failed
waited h q namespace (err e) = pure (backup_result h q none (error_text e))
waited h q namespace (ok (b, ok u)) = pure (backup_result h q (some b) [])
waited h q namespace (ok (b, err e)) =
    if is_backup_failed e
    then pure (backup_result h q (some b) (failed_text namespace b))
    else pure (backup_result h q none (error_text e))
