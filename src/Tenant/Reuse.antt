-- ===== src/Tenant/Reuse.antt =====
-- internal/tenant/provision.go: when the Secret file and the Secret of the cluster are written.
use cnpg_portal.Prelude.{inr, inl, Bool-cases, ◌∷◌, ◌⊎◌, true, Text, ◌≡◌, refl, some, arith}
use cnpg_portal.Result.{Result, ok, err}
use cnpg_portal.World.{
  update_secret, create_secret, sops_decrypt, stat, get_secret, Secret, World, History,
}
use cnpg_portal.World.Chain.{annotate, outcome, ◌>>=◌}
use cnpg_portal.Sops.{decrypt, Rules}
use cnpg_portal.Password.{build_secret_yaml}
use cnpg_portal.Password.ReadBack.{is_line, is_token, build_secret_yaml-parse}
use cnpg_portal.Workspace.{secret_path, Workspace}
use cnpg_portal.Tenant.Secrets.{
  is_current, existing_password, put_secret, file_password, apply_cluster_secret,
  ensure_secret_file,
}
use cnpg_portal.Sops.Atomic.{last_call}

-- what the Get answered was up to date, or the last call of `h` has stored the credentials
abbrev pub IsStored : Workspace → Text → Text → Text → Result Secret → History → Type 0
IsStored ws name username password answer h =
    ((s : Secret) × (answer ≡ ok s) × (is_current s username password ≡ true))
    ⊎ (last_call h ≡ some (create_secret ws.namespace name username password))
    ⊎ (last_call h ≡ some (update_secret ws.namespace name username password))

module _ (w : World) (ws : Workspace) (h : History) where
  -- Where the tenant's Secret file exists and decrypts to the manifest that provisioning writes for a
  -- password of letters, digits, hyphens and underscores, that password is the result: the file is
  -- decrypted and nothing else is called, no random source and no write. The names in the manifest
  -- hold no line feed.
  pub ensure_secret_file-reuses :
      (rules : Rules) (app found name namespace password : Text)
      → w.text h (stat (secret_path ws app)) ≡ ok found
      → w.text (stat (secret_path ws app) ∷ h) (sops_decrypt ws.root (secret_path ws app))
        ≡ ok (build_secret_yaml name namespace app password)
      → is_line name ≡ true
      → is_line namespace ≡ true
      → is_line app ≡ true
      → is_token password ≡ true
      → ensure_secret_file w ws rules app h
        ≡ (ok password, sops_decrypt ws.root (secret_path ws app) ∷ stat (secret_path ws app) ∷ h)
  unfolding ensure_secret_file file_password existing_password ◌>>=◌ outcome annotate decrypt
  ensure_secret_file-reuses rules app found name namespace password e d n ns u p =
      let read = build_secret_yaml-parse name namespace app password n ns u p in
      rw e (rw d (rw read refl))

  put_secret-IsStored :
      (name username password : Text) (answer : Result Secret)
      → (put_secret w ws name username password answer h).0 ≡ ok tt
      → IsStored ws name username password answer
          (put_secret w ws name username password answer h).1
  unfolding put_secret ◌>>=◌
  put_secret-IsStored name username password (ok s) e =
      elim (Bool-cases (is_current s username password)) [
        | inl t ↦ inl (s, refl, t)
        | inr f ↦ inr (inr (ground arith))
      ]
  put_secret-IsStored name username password (err x) e = inr (inl (ground arith))

-- When the Secret was applied, the cluster's Secret already held this name and password, or the
-- last call has created it or updated it with them.
pub apply_cluster_secret-IsStored :
    (w : World) (ws : Workspace) (name username password : Text) (h : History)
    → (apply_cluster_secret w ws name username password h).0 ≡ ok tt
    → IsStored ws name username password
        (w.secret h (get_secret ws.namespace name))
        (apply_cluster_secret w ws name username password h).1
unfolding apply_cluster_secret ◌>>=◌ outcome
apply_cluster_secret-IsStored w ws name username password h e =
    put_secret-IsStored w ws (get_secret ws.namespace name ∷ h) name username password _ e
