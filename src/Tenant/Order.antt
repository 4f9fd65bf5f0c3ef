-- ===== src/Tenant/Order.antt =====
-- What has to come before a change: the role before a rotation, both databases before a sync.
use cnpg_portal.Prelude.{none, codes, Text, ◌≡◌, refl, false, arith, ◌∷◌}
use cnpg_portal.Result.{Error, ok, err}
use cnpg_portal.World.{Exec, Call, World, Conn, History, exec}
use cnpg_portal.World.Chain.{◌>>=◌, annotate}
use cnpg_portal.Sops.{Rules}
use cnpg_portal.Workspace.{Workspace}
use cnpg_portal.Tenant.Rotate.{rotate_steps}
use cnpg_portal.Tenant.Clone.{require_database, sync_steps}
use cnpg_portal.Postgres.{exec_in, run_query, query_args}
use cnpg_portal.Tenant.Database.{role_sql, database_sql, has_rows, database_exists, role_exists}

-- the call of a query in the superuser's database
abbrev pub query_call : Conn → Text → Call
query_call c query = exec c (query_args (codes "postgres") query) none

bind-eq_of_ok {ℓ κ} :
    {A : Type ℓ} {B : Type κ} (m : Exec A) (g : Error → Error) (f : A → Exec B) (h : History)
    {a : A} {h' : History}
    → m h ≡ (ok a, h')
    → (annotate g m >>= f) h ≡ f a h'
unfolding ◌>>=◌ annotate
bind-eq_of_ok m g f h e = rw e refl

bind-eq_of_err {ℓ κ} :
    {A : Type ℓ} {B : Type κ} (m : Exec A) (f : A → Exec B) (h : History) {e : Error} {h' : History}
    → m h ≡ (err e, h')
    → (m >>= f) h ≡ (err e, h')
unfolding ◌>>=◌
bind-eq_of_err m f h p = rw p refl

module _ (w : World) (c : Conn) (h : History) where
  has_rows-calls : (query : Text) → (has_rows w c query h).1 ≡ query_call c query ∷ h
  unfolding has_rows run_query exec_in ◌>>=◌ annotate
  has_rows-calls query = ground arith

  -- Rotate of a database without a role of its name asks for the role and fails: no password is
  -- made, and neither the role, nor the Secret, nor the Secret file is touched.
  pub rotate_steps-needs_role :
      (rules : Rules) (ws : Workspace) (app : Text)
      → (role_exists w c app h).0 ≡ ok false
      → (e : Error) × (rotate_steps w rules c ws app h ≡ (err e, query_call c (role_sql app) ∷ h))
  unfolding rotate_steps role_exists ◌>>=◌
  rotate_steps-needs_role rules ws app e =
      (_, bind-eq_of_ok (role_exists w c app) _ _ h (λ i. (e i, has_rows-calls (role_sql app) i)))

  -- Sync drops nothing where the source is missing: it asks for the source and fails.
  pub sync_steps-needs_source :
      (src dst : Text)
      → (database_exists w c src h).0 ≡ ok false
      → (e : Error) × (sync_steps w c src dst h ≡ (err e, query_call c (database_sql src) ∷ h))
  unfolding sync_steps require_database database_exists ◌>>=◌
  sync_steps-needs_source src dst e = (
    _,
    bind-eq_of_err (require_database w c src) _ h (
        bind-eq_of_ok (database_exists w c src) _ _ h
          (λ i. (e i, has_rows-calls (database_sql src) i))),
  )
