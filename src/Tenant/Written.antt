-- ===== src/Tenant/Written.antt =====
-- internal/tenant/rotate.go: the write of the tenant's Secret file, when it ends well.
use cnpg_portal.Paths.{join_path}
use cnpg_portal.Prelude.{[], Text, codes, ◌≡◌, sym, subst, ap, ◌∙◌, ◌∷◌}
use cnpg_portal.Result.{ok}
use cnpg_portal.World.{
  World, History, read_file, encrypt, make_dir, create_temp, ask_done, ask_text,
}
use cnpg_portal.World.Chain.{annotate, lift, bind-eq-ok}
use cnpg_portal.Sops.{Rules, encrypt_for_workspace, write_encrypted_atomic, dir_of}
use cnpg_portal.Sops.Atomic.{full_write, write_encrypted_atomic_trace}
use cnpg_portal.Workspace.{Workspace, secret_name, secret_path}
use cnpg_portal.Tenant.Secrets.{write_sops_secret}
use cnpg_portal.Password.{build_secret_yaml}

abbrev pub rules_path : Text → Text
rules_path root = join_path (root ∷ codes ".sops.yaml" ∷ [])

-- From `h` on, the rules of the workspace were read, the plain text was encrypted, and its
-- encryption was written to the path, with no other call.
abbrev pub IsWritten : World → Text → Text → Text → History → History → Type 0
IsWritten w root path plain h h' =
    (recipient encrypted tmp : Text) × (w.text (read_file (rules_path root) ∷ h)
        (encrypt recipient plain)
      ≡ ok encrypted)
    × (h'
        ≡ full_write path encrypted tmp (encrypt recipient plain ∷ read_file (rules_path root) ∷ h))

module _ (w : World) where
  encrypt_for_workspace-ok :
      (rules : Rules) (root target plain : Text) (h h' : History) {encrypted : Text}
      → encrypt_for_workspace w rules root target plain h ≡ (ok encrypted, h')
      → (recipient : Text) × (w.text (read_file (rules_path root) ∷ h) (encrypt recipient plain)
          ≡ ok encrypted)
        × (h' ≡ encrypt recipient plain ∷ read_file (rules_path root) ∷ h)
  unfolding encrypt_for_workspace ask_text annotate lift
  encrypt_for_workspace-ok rules root target plain h h' {encrypted} e =
      let (a₁, h₁, p₁, e₁) = bind-eq-ok _ _ h e in
      let (a₂, h₂, p₂, e₂) = bind-eq-ok _ _ h₁ e₁ in
      let (a₃, h₃, p₃, e₃) = bind-eq-ok _ _ h₂ e₂ in
      let (recipient, h₄, p₄, e₄) = bind-eq-ok _ _ h₃ e₃ in
      let past : h₄ ≡ read_file (rules_path root) ∷ h =
        sym (λ i. (p₄ i).1) ∙ (sym (λ i. (p₃ i).1) ∙ (sym (λ i. (p₂ i).1) ∙ sym (λ i. (p₁ i).1))) in
      (
        recipient,
        subst (λ k. w.text k (encrypt recipient plain) ≡ ok encrypted) past (λ i. (e₄ i).0),
        sym (λ i. (e₄ i).1) ∙ ap (λ k. encrypt recipient plain ∷ k) past,
      )

  write_encrypted_atomic-ok :
      (path encrypted : Text) (h h' : History)
      → write_encrypted_atomic w path encrypted h ≡ (ok tt, h')
      → (tmp : Text) × (h' ≡ full_write path encrypted tmp h)
  unfolding ask_done ask_text write_encrypted_atomic
  write_encrypted_atomic-ok path encrypted h h' e =
      let (u, h₁, p, e₁) = bind-eq-ok (ask_done w (make_dir (dir_of path))) _ h e in
      let (tmp, h₂, q, e₂) = bind-eq-ok (ask_text w (create_temp (dir_of path))) _ h₁ e₁ in
      let start : make_dir (dir_of path) ∷ h ≡ h₁ = λ i. (p i).1 in
      let created =
        subst (λ k. w.text k (create_temp (dir_of path)) ≡ ok tmp) (sym start) λ i. (q i).0 in
      (
        tmp,
        sym (λ i. (e i).1)
            ∙ (write_encrypted_atomic_trace w path encrypted tmp h (λ i. (p i).0) created).0
                (λ i. (e i).0),
      )

  pub write_sops_secret-IsWritten :
      (ws : Workspace) (rules : Rules) (app password : Text) (h h' : History)
      → write_sops_secret w ws rules app password h ≡ (ok tt, h')
      → IsWritten w ws.root
          (secret_path ws app)
          (build_secret_yaml (secret_name ws app) ws.namespace app password)
          h
          h'
  unfolding write_sops_secret
  write_sops_secret-IsWritten ws rules app password h h' e =
      let plain = build_secret_yaml (secret_name ws app) ws.namespace app password in
      let (encrypted, h₂, p, e₁) =
        bind-eq-ok (encrypt_for_workspace w rules ws.root (secret_path ws app) plain) _ h e in
      let (recipient, answer, made) =
        encrypt_for_workspace-ok rules ws.root (secret_path ws app) plain h h₂ p in
      let (tmp, trace) = write_encrypted_atomic-ok (secret_path ws app) encrypted h₂ h' e₁ in
      (recipient, encrypted, tmp, answer, trace ∙ ap (full_write _ encrypted tmp) made)
