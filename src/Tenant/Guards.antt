-- ===== src/Tenant/Guards.antt =====
-- What the verbs refuse before they make any call.
use cnpg_portal.Prelude.{Text, ◌≡◌, refl, Bool, true, false, ◌&&◌, not, eq_text, arith}
use cnpg_portal.Result.{Error, Result, ok, err}
use cnpg_portal.World.{World, Exec, History}
use cnpg_portal.World.Chain.{lift, require, ◌>>=◌, ◌>>◌}
use cnpg_portal.Sops.{Rules}
use cnpg_portal.ClusterYaml.Roles.{Yaml}
use cnpg_portal.Tenant.{is_complete, has_pg, Workspace, Conn, all_deps, pg_dep, Deps}
use cnpg_portal.Tenant.Provision.{provision}
use cnpg_portal.Tenant.Drop.{drop_tenant}
use cnpg_portal.Tenant.Rotate.{rotate}
use cnpg_portal.Tenant.Clone.{sync}
use cnpg_portal.Names.{database_name_safe, ident_safe}

-- an error, and no call
abbrev pub Refuses {ℓ} : {A : Type ℓ} → Exec A → History → Type ℓ
Refuses m h = (e : Error) × (m h ≡ (err e, h))

Refuses-require {ℓ} :
    {B : Type ℓ} (b : Bool) (e : Error) (k : Exec B) (h : History)
    → (b ≡ true → Refuses k h)
    → Refuses (require b e >> k) h
unfolding ◌>>=◌
Refuses-require true e k h r = r refl
Refuses-require false e k h r = (e, refl)

pub Refuses-lift {ℓ κ} :
    {A : Type ℓ} {B : Type κ} (r : Result A) (f : A → Exec B) (h : History)
    → ((a : A) → r ≡ ok a → Refuses (f a) h)
    → Refuses (lift r >>= f) h
unfolding ◌>>=◌
Refuses-lift (ok a) f h k = k a refl
Refuses-lift (err e) f h k = (e, refl)

all_deps-is_complete :
    (what : Text) (d : Deps) {a : Conn × Workspace} → all_deps what d ≡ ok a → is_complete d ≡ true
unfolding all_deps
all_deps-is_complete what d e = ground arith

pg_dep-has_pg : (what : Text) (d : Deps) {c : Conn} → pg_dep what d ≡ ok c → has_pg d ≡ true
unfolding pg_dep
pg_dep-has_pg what d e = ground arith

module _ (w : World) (rules : Rules) (yaml : Yaml) (d : Deps) (h : History) where
  -- Provision makes no call and fails, unless the name is safe and every dependency is there.
  pub provision-Refuses :
      (app : Text)
      → (ident_safe app && is_complete d) ≡ false
      → Refuses (provision w rules yaml d app) h
  unfolding provision
  provision-Refuses app g =
      Refuses-require _ _ _ h
        λ s. Refuses-lift _ _ h λ deps p. absurd (ground (arith, all_deps-is_complete _ d p))

  -- Drop makes no call and fails, unless the name is safe, the user has confirmed and every
  -- dependency is there.
  pub drop_tenant-Refuses :
      (app : Text) (confirmed : Bool)
      → (ident_safe app && confirmed && is_complete d) ≡ false
      → Refuses (drop_tenant w yaml d app confirmed) h
  unfolding drop_tenant
  drop_tenant-Refuses app confirmed g = Refuses-require _ _ _ h λ s.
      Refuses-require _ _ _ h
        λ t. Refuses-lift _ _ h λ deps p. absurd (ground (arith, all_deps-is_complete _ d p))

  -- Rotate makes no call and fails, unless the name is safe, the user has confirmed and every
  -- dependency is there.
  pub rotate-Refuses :
      (app : Text) (confirmed : Bool)
      → (ident_safe app && confirmed && is_complete d) ≡ false
      → Refuses (rotate w rules d app confirmed) h
  unfolding rotate
  rotate-Refuses app confirmed g = Refuses-require _ _ _ h λ s.
      Refuses-require _ _ _ h
        λ t. Refuses-lift _ _ h λ deps p. absurd (ground (arith, all_deps-is_complete _ d p))

  -- Sync makes no call and fails, unless both names are safe and differ, the user has confirmed
  -- and there is a database connection.
  pub sync-Refuses :
      (src dst : Text) (confirmed : Bool)
      → (database_name_safe src && ident_safe dst && not (eq_text src dst) && confirmed && has_pg d)
        ≡ false
      → Refuses (sync w d src dst confirmed) h
  unfolding sync
  sync-Refuses src dst confirmed g = Refuses-require _ _ _ h λ s. Refuses-require _ _ _ h λ t.
      Refuses-require _ _ _ h λ u.
        Refuses-require _ _ _ h
          λ v. Refuses-lift _ _ h λ c p. absurd (ground (arith, pg_dep-has_pg _ d p))
