-- ===== src/Sops/Footprint.antt =====
-- The calls of the SOPS helpers.
use cnpg_portal.Prelude.{◌≡◌, Text, codes, [], ◌∷◌}
use cnpg_portal.Paths.{join_path}
use cnpg_portal.Result.{Result, ok, err}
use cnpg_portal.World.{
  World, Call, History, Exec, read_file, make_dir, create_temp, temp_chmod, temp_write, temp_sync,
  temp_close, rename, remove_file, sops_decrypt, encrypt,
}
use cnpg_portal.World.Chain.{◌>>◌, ◌>>=◌, outcome}
use cnpg_portal.World.Keeps.{
  Keeps-bind_text, Keeps, Grows, keeps_rules, Keeps-ask_text, Keeps-ask_done, Keeps-bind,
  Keeps-outcome, Keeps-pure,
}
use cnpg_portal.Sops.{
  ask_done, Rules, encrypt_for_workspace, or_cleanup, close_and_remove, write_encrypted_atomic,
  decrypt, dir_of,
}

-- the outside has given this name when it was asked for a temporary file beside `path`
abbrev pub IsTemp : World → Text → Text → Type 0
IsTemp w path tmp = (h : History) × (w.text h (create_temp (dir_of path)) ≡ ok tmp)

-- the calls of an atomic write to `path`
pub data IsWriteCall (w : World) (path : Text) : Call → Type 0 where
  dir : IsWriteCall w path (make_dir (dir_of path))
  temp : IsWriteCall w path (create_temp (dir_of path))
  chmod : (tmp : Text) → IsTemp w path tmp → IsWriteCall w path (temp_chmod tmp)
  write : (tmp text : Text) → IsTemp w path tmp → IsWriteCall w path (temp_write tmp text)
  sync : (tmp : Text) → IsTemp w path tmp → IsWriteCall w path (temp_sync tmp)
  close : (tmp : Text) → IsTemp w path tmp → IsWriteCall w path (temp_close tmp)
  remove : (tmp : Text) → IsTemp w path tmp → IsWriteCall w path (remove_file tmp)
  move : (tmp : Text) → IsTemp w path tmp → IsWriteCall w path (rename tmp path)

module _ {P : History → Type 0} {Allowed : Call → Type 0} (w : World)
    (grows : Grows P Allowed) where
  Keeps-or_cleanup : (m : Exec Unit) (r : Result Unit) → Keeps P m → Keeps P (or_cleanup w m r)
  unfolding or_cleanup
  Keeps-or_cleanup m (ok u) k = Keeps-pure tt
  Keeps-or_cleanup m (err e) k = search (keeps_rules)

  module _ (path : Text) (allowed : (c : Call) → IsWriteCall w path c → Allowed c) where
    Keeps-write_call : (c : Call) → IsWriteCall w path c → Keeps P (ask_done w c)
    Keeps-write_call c i = Keeps-ask_done w grows c (allowed c i)

    Keeps-close_and_remove : (tmp : Text) → IsTemp w path tmp → Keeps P (close_and_remove w tmp)
    unfolding close_and_remove
    Keeps-close_and_remove tmp made =
        Keeps-bind _ _ (Keeps-outcome _ (Keeps-write_call _ (close tmp made)))
          λ _. Keeps-write_call _ (remove tmp made)

    -- one call, and the cleanup where it fails
    Keeps-step :
        (c : Call) (cleanup : Exec (Unit {0})) (rest : Exec (Unit {0}))
        → IsWriteCall w path c
        → Keeps P cleanup
        → Keeps P rest
        → Keeps P (outcome (ask_done w c) >>= λ r. or_cleanup w cleanup r >> rest)
    Keeps-step c cleanup rest i k l =
        Keeps-bind _ _ (Keeps-outcome _ (Keeps-write_call c i))
          λ r. Keeps-bind _ _ (Keeps-or_cleanup cleanup r k) λ _. l

    pub Keeps-write_encrypted_atomic :
        (encrypted : Text) → Keeps P (write_encrypted_atomic w path encrypted)
    unfolding write_encrypted_atomic
    Keeps-write_encrypted_atomic encrypted = Keeps-bind _ _ (Keeps-write_call _ dir) λ _.
        Keeps-bind_text w grows (create_temp (dir_of path)) (allowed _ temp) _ λ tmp h e.
          let made : IsTemp w path tmp = (h, e) in
          let both = Keeps-close_and_remove tmp made in
          let removed = Keeps-write_call _ (remove tmp made) in
          Keeps-step _ _ _ (chmod tmp made) both (
            Keeps-step _ _ _ (write tmp encrypted made) both (
              Keeps-step _ _ _ (sync tmp made) both (
                Keeps-step _ _ _ (close tmp made) removed (
                  Keeps-bind _ _ (Keeps-outcome _ (Keeps-write_call _ (move tmp made)))
                    λ r. Keeps-or_cleanup _ r removed))))

  pub Keeps-encrypt_for_workspace :
      (env : Rules) (root target plain : Text)
      → Allowed (read_file (join_path (root ∷ codes ".sops.yaml" ∷ [])))
      → ((recipient : Text) → Allowed (encrypt recipient plain))
      → Keeps P (encrypt_for_workspace w env root target plain)
  unfolding encrypt_for_workspace
  Keeps-encrypt_for_workspace env root target plain a b =
      search (keeps_rules, Keeps-ask_text w grows) depth 12

  pub Keeps-decrypt :
      (root path : Text) → Allowed (sops_decrypt root path) → Keeps P (decrypt w root path)
  unfolding decrypt
  Keeps-decrypt root path a = search (keeps_rules, Keeps-ask_text w grows)
