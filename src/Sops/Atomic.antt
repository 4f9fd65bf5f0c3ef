-- ===== src/Sops/Atomic.antt =====
-- The atomic write, whatever the file system answers.
use cnpg_portal.Prelude.{Text, ◌≡◌, [], ◌∷◌, Option, none, some, arith}
use cnpg_portal.Result.{Error, ok, err}
use cnpg_portal.World.{
  World, Call, History, make_dir, create_temp, temp_chmod, temp_write, temp_sync, temp_close,
  rename, remove_file,
}
use cnpg_portal.World.Chain.{◌>>=◌, outcome}
use cnpg_portal.Sops.{write_encrypted_atomic, or_cleanup, close_and_remove, dir_of}

abbrev pub last_call : History → Option Call
last_call [] = none
last_call (c ∷ h) = some c

-- The calls of a write that ends well, the last one first.
abbrev pub full_write : Text → Text → Text → History → History
full_write path encrypted tmp h =
    rename tmp path
    ∷ temp_close tmp
    ∷ temp_sync tmp
    ∷ temp_write tmp encrypted
    ∷ temp_chmod tmp
    ∷ create_temp (dir_of path)
    ∷ make_dir (dir_of path)
    ∷ h

module _ (w : World) (path encrypted tmp : Text) (h : History)
    (folder : w.done h (make_dir (dir_of path)) ≡ ok tt)
    (created : w.text (make_dir (dir_of path) ∷ h) (create_temp (dir_of path)) ≡ ok tmp) where
  -- Once the temporary file exists: a write that ends well has written, synced and closed it before
  -- the rename, which is its last call; and a write that fails ends by removing the temporary file.
  pub write_encrypted_atomic_trace :
      ((write_encrypted_atomic w path encrypted h).0 ≡ ok tt
        → (write_encrypted_atomic w path encrypted h).1 ≡ full_write path encrypted tmp h)
      × ((e : Error)
          → (write_encrypted_atomic w path encrypted h).0 ≡ err e
          → last_call (write_encrypted_atomic w path encrypted h).1 ≡ some (remove_file tmp))
  unfolding write_encrypted_atomic ◌>>=◌ outcome or_cleanup close_and_remove
  write_encrypted_atomic_trace = (ground arith, λ e. ground arith)
