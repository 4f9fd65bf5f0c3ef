-- ===== src/Tenant/Passwords.antt =====
-- internal/tenant/provision.go: the password of a tenant in a run that succeeds.
use mathlib.Core.List.{Memᴰ}
use cnpg_portal.Tenant.Reuse.{IsStored, apply_cluster_secret-IsStored}
use cnpg_portal.Prelude.{subst, some, codes, Text, ◌≡◌, refl, arith, ◌∷◌, [], List}
use cnpg_portal.Result.{wrapped, Error, Result, ok, err}
use cnpg_portal.World.{World, Conn, History, Call, Exec, exec, get_secret}
use cnpg_portal.World.Chain.{pure, outcome, rename_error, ◌>>=◌, ◌>>◌, annotate}
use cnpg_portal.World.Keeps.{Keeps}
use cnpg_portal.Sops.{Rules}
use cnpg_portal.ClusterYaml.Roles.{Yaml}
use cnpg_portal.Workspace.{cluster_yaml_path, Workspace, secret_name}
use cnpg_portal.Tenant.{Tenant, tenant_of}
use cnpg_portal.Tenant.Database.{ensure_grants, ensure_database, run_statement}
use cnpg_portal.Postgres.{exec_in, run_sql, sql_args}
use cnpg_portal.Tenant.Provision.{new_role, or_role_exists}
use cnpg_portal.ClusterYaml.Files.{append_role}
use cnpg_portal.Tenant.Secrets.{apply_cluster_secret}

pub annotate-eq-ok {ℓ} :
    {A : Type ℓ} (g : Error → Error) (m : Exec A) (h : History) {a : A} {h' : History}
    → annotate g m h ≡ (ok a, h')
    → m h ≡ (ok a, h')
unfolding annotate
annotate-eq-ok {A} g m h {a} {h'} e = go (m h).0 (m h).1 (λ i. (e i).0) (λ i. (e i).1)
  where
    go :
        (r : Result A) (k : History)
        → rename_error g r ≡ ok a
        → k ≡ h'
        → ◌≡◌ {A = Result A × History} (r, k) (ok a, h')
    go (ok b) k p q = rw (p, q) refl
    go (err x) k p q = absurd (cc p)

-- every success gives `a`
abbrev Returns {ℓ} : {A : Type ℓ} → A → Exec A → Type ℓ
Returns {A} a m = (h : History) (b : A) (h' : History) → m h ≡ (ok b, h') → b ≡ a

-- the call of a statement in the superuser's database
abbrev pub statement_call : Conn → Text → Call
statement_call c script = exec c (sql_args (codes "postgres")) (some script)

module _ (w : World) (rules : Rules) (yaml : Yaml) (c : Conn) (ws : Workspace) (app : Text) where
  pub run_statement-calls :
      (script : Text) (h : History)
      → (run_statement w c [] script h).1 ≡ statement_call c script ∷ h
  unfolding run_statement run_sql exec_in ◌>>=◌ annotate
  run_statement-calls script h = ground arith

  -- the steps of Provision behind the role
  unfoldable after_role : Text → Exec Tenant
  after_role password = do
    annotate (wrapped (codes "ensure database")) (ensure_database w c app)
    annotate (wrapped (codes "ensure grants")) (ensure_grants w c app)
    patched ← outcome (append_role w yaml (cluster_yaml_path ws) (new_role ws app))
    or_role_exists patched
    pure (tenant_of ws app password)

  -- what has been called stays in the history
  module _ (call : Call) where
    abbrev Made : History → Type 0
    Made h = Memᴰ call h

    abbrev Any : Call → Type 0
    Any k = Unit

  pub applied-IsStored :
      (password : Text) (h h' : History)
      → apply_cluster_secret w ws (secret_name ws app) app password h ≡ (ok tt, h')
      → IsStored ws
          (secret_name ws app)
          app
          password
          (w.secret h (get_secret ws.namespace (secret_name ws app)))
          h'
  applied-IsStored password h h' e =
      subst
        (IsStored ws (secret_name ws app) app password
          (w.secret h (get_secret ws.namespace (secret_name ws app))))
        (λ i. (e i).1)
        (apply_cluster_secret-IsStored w ws (secret_name ws app) app password h (λ i. (e i).0))
