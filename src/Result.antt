-- ===== src/Result.antt =====
-- Go's errors as values. `wrapped` is `fmt.Errorf("…: %w", err)`; a plain message keeps the words
-- of the source that no argument changes, and its arguments beside them.
pub mod Bind
use cnpg_portal.Prelude.{Text, ℤ, ℕ, Bool, true, false, ◌||◌}

pub data Error : Type 0 where
  -- the sentinels that callers look for with `errors.Is`
  err_not_found err_cluster_not_found err_role_exists err_confirmation_required : Error
  err_tenant_not_found err_credentials_not_found err_backup_failed : Error
  -- what `IsNotFound` and `os.IsNotExist` recognise
  err_missing : Error
  -- the context was cancelled, or its deadline has passed
  err_context : Error
  message : Text → Error
  message_about : Text → Text → Error
  external : Text → Error
  wrapped : Text → Error → Error

pub data Result {ℓ} (A : Type ℓ) : Type ℓ where
  ok : A → Result A
  err : Error → Result A

-- k8serrors.IsNotFound, os.IsNotExist: on the error as the call returned it
abbrev pub is_missing : Error → Bool
is_missing err_missing = true
is_missing _ = false

-- errors.Is(err, ErrRoleExists)
unfoldable pub is_role_exists : Error → Bool
is_role_exists err_role_exists = true
is_role_exists (wrapped w e) = is_role_exists e
is_role_exists _ = false
