-- ===== src/Tenant/Shown.antt =====
-- What the portal shows of a tenant.
use cnpg_portal.Prelude.{Text, ◌≡◌, refl, false, arith, [], some, is_empty}
use cnpg_portal.Result.{Result, ok, err}
use cnpg_portal.World.{Secret}
use cnpg_portal.Names.{dns1123_label, dns1123_basename}
use cnpg_portal.Workspace.{Workspace, secret_name}
use cnpg_portal.Connstr.{Inputs}
use cnpg_portal.Tenant.{k8s_secret_name}
use cnpg_portal.Tenant.Listing.{shown_secret_name, credentials_of}

-- List and Status name the same Secret for a tenant of a workspace without a Secret prefix.
pub k8s_secret_name-eq :
    (ws : Workspace) (app : Text)
    → ws.secret_prefix ≡ []
    → k8s_secret_name app ≡ shown_secret_name (some ws) app
unfolding k8s_secret_name secret_name shown_secret_name dns1123_label dns1123_basename
k8s_secret_name-eq ws app e = rw e refl

-- A credential that is shown is complete: the password is the Secret's and is not empty, and user
-- and database are the tenant. A missing Secret is ErrCredentialsNotFound.
pub credentials_of-ok :
    (ws : Workspace) (app : Text) (answer : Result Secret) (i : Inputs)
    → credentials_of ws app answer ≡ ok i
    → (s : Secret) × (answer ≡ ok s)
      × (s.password ≡ some i.password)
      × (is_empty i.password ≡ false)
      × (i.user ≡ app)
      × (i.database ≡ app)
unfolding credentials_of
credentials_of-ok ws app (err e) i p = absurd (ground arith)
credentials_of-ok ws app (ok s) i p =
    (s, refl, ground arith, ground arith, ground arith, ground arith)
