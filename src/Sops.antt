-- ===== src/Sops.antt =====
-- internal/sops/encrypt.go: the recipient of the workspace's `.sops.yaml`, and the atomic write of
-- an encrypted file. The YAML parser, `filepath.Rel` and the regular expressions are the parameter
-- `Rules`; the encryption for one recipient (internal/sops/encrypt_native.go, which only calls the
-- SOPS library) is a call of the outside.
pub mod Footprint
pub mod Atomic
use cnpg_portal.Prelude.{
  take, ℕ, Text, codes, eq_text, List, [], ◌∷◌, ◌++◌, Bool, true, false, not, ◌||◌, Option, none,
  some, if◌then◌else◌, is_empty, ◌==◌,
}
use cnpg_portal.Strings.{trim_space, last_index, split}
use cnpg_portal.Paths.{join_path}
use cnpg_portal.Result.{Error, Result, ok, err, message, message_about, wrapped}
use cnpg_portal.World.{
  World, Exec, Call, read_file, make_dir, create_temp, temp_chmod, temp_write, temp_sync,
  temp_close, rename, remove_file, sops_decrypt, encrypt, ask_text, ask_done,
}
use cnpg_portal.World.Chain.{◌>>=◌, ◌>>◌, pure, raise, lift, require, annotate, outcome}

pub record Rule : Type 0 where
  pub path_regex : Text
  pub age : Text

pub record Rules : Type 0 where
  pub parse : Text → Result (List Rule)
  pub rel : Text → Text → Result Text
  pub matches : Text → Text → Result Bool

-- strings.FieldsFunc at commas and line feeds: the non-empty fields
unfoldable pub fields : Text → Text → List Text
fields [] [] = []
fields (c ∷ word) [] = (c ∷ word) ∷ []
fields word (c ∷ s) =
    let longer = fields (word ++ c ∷ []) s in
    let next = fields [] s in
    if c == b',' || c == 10 then if is_empty word then next else word ∷ next else longer

-- the recipients of the matched rule, which must be one
unfoldable pub one_recipient : List Text → Result Text
one_recipient (r ∷ []) = ok (trim_space r)
one_recipient _ = err (message (codes "matched SOPS rule must contain exactly one age recipient"))

-- the loop over the creation rules: the first rule that is complete and matches decides
unfoldable pub recipient_for : Rules → List Rule → Text → Result Text
unfolding fields one_recipient
recipient_for env [] rel = err (message_about (codes "no .sops.yaml creation rule matches %q") rel)
recipient_for env (rule ∷ rules) rel =
    let later = recipient_for env rules rel in
    if is_empty rule.path_regex || is_empty rule.age
    then later
    else elim (env.matches rule.path_regex rel) [
      | err e ↦ err (wrapped (codes "invalid SOPS path_regex") e)
      | ok hit ↦ if hit then one_recipient (fields [] rule.age) else later
    ]

-- filepath.Dir of a clean path of two names at least
unfoldable pub dir_of : Text → Text
dir_of path = elim (last_index b'/' path) [ none ↦ codes "." | some i ↦ take i path ]

module _ (w : World) where
  unfoldable pub encrypt_for_workspace : Rules → Text → Text → Text → Exec Text
  unfolding recipient_for
  encrypt_for_workspace env root target plain = do
    config ←
        annotate (wrapped (codes "read workspace .sops.yaml"))
          (ask_text w (read_file (join_path (root ∷ codes ".sops.yaml" ∷ []))))
    rules ← annotate (wrapped (codes "parse workspace .sops.yaml")) (lift (env.parse config))
    rel ← annotate (wrapped (codes "resolve target path")) (lift (env.rel root target))
    recipient ← lift (recipient_for env rules rel)
    ask_text w (encrypt recipient plain)

  -- `if err != nil { cleanup(); return err }`
  unfoldable pub or_cleanup : Exec (Unit {0}) → Result (Unit {0}) → Exec (Unit {0})
  or_cleanup cleanup (ok _) = pure tt
  or_cleanup cleanup (err e) = outcome cleanup >>= λ _. raise e

  unfoldable pub close_and_remove : Text → Exec (Unit {0})
  close_and_remove tmp = do
    outcome (ask_done w (temp_close tmp)) >>= λ _. ask_done w (remove_file tmp)

  unfoldable pub write_encrypted_atomic : Text → Text → Exec (Unit {0})
  write_encrypted_atomic path encrypted = do
    ask_done w (make_dir (dir_of path))
    tmp ← ask_text w (create_temp (dir_of path))
    chmod ← outcome (ask_done w (temp_chmod tmp))
    or_cleanup (close_and_remove tmp) chmod
    written ← outcome (ask_done w (temp_write tmp encrypted))
    or_cleanup (close_and_remove tmp) written
    synced ← outcome (ask_done w (temp_sync tmp))
    or_cleanup (close_and_remove tmp) synced
    closed ← outcome (ask_done w (temp_close tmp))
    or_cleanup (ask_done w (remove_file tmp)) closed
    renamed ← outcome (ask_done w (rename tmp path))
    or_cleanup (ask_done w (remove_file tmp)) renamed

  unfoldable pub decrypt : Text → Text → Exec Text
  decrypt root path =
      annotate (wrapped (codes "sops decrypt")) (ask_text w (sops_decrypt root path))
