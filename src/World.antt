-- ===== src/World.antt =====
-- What stands outside of the program: the pods of the cluster (`psql`, `pg_dump` and `pg_restore`
-- run there), the Kubernetes API, the `sops` program, the files and the random source. A call is
-- a value, and the history of a run is the list of its calls, the last one first. The outside is
-- any function that answers a call from the history before it, so that it may remember, fail or
-- change its mind in every way. `Exec` is the code's chain of calls: what was called before an
-- error stays called.
pub mod Chain
pub mod Keeps
use cnpg_portal.Prelude.{Text, ℕ, List, [], ◌∷◌, Bool, true, false, Option, none, some}
use cnpg_portal.Result.{Error, Result, ok, err}

-- internal/pg/sql.go: the coordinates of a pod
pub record Conn : Type 0 where
  pub namespace : Text
  pub pod : Text
  pub container : Text

-- A Secret as the API shows it: `Data`, with the keys that the program reads.
pub record Secret : Type 0 where
  pub username : Option Text
  pub password : Option Text

-- What the program reads of a custom resource: a missing text is "", and a plugin is its name and
-- its `barmanObjectName`. A time is a number, and 0 is the zero time.
pub record Manifest : Type 0 where
  pub name : Text
  pub image_name : Text
  pub storage : Text
  pub plugins : Option (List (Text × Text))

pub record Backup : Type 0 where
  pub name : Text
  pub cluster : Text
  pub backup_id : Text
  pub method : Text
  pub phase : Text
  pub started_at : ℕ
  pub stopped_at : ℕ
  pub dest_path : Text

pub record Pod : Type 0 where
  pub name : Text
  pub running : Bool
  pub conditions : List (Text × Text)

-- internal/cnpg/cluster.go: what `CreateRecoveryCluster` puts into the new Cluster
pub record Recovery : Type 0 where
  pub name : Text
  pub namespace : Text
  pub source : Text
  pub backup_id : Text
  pub target_time : Option Text
  pub image_name : Text
  pub storage : Text
  pub object_store : Text

pub data Call : Type 0 where
  -- a command in a pod, with its standard input, if it has one
  exec : Conn → List Text → Option Text → Call
  -- two commands at once, the output of the first being the input of the second
  exec_pipe : Conn → List Text → Conn → List Text → Call
  get_secret : Text → Text → Call
  create_secret update_secret : Text → Text → Text → Text → Call
  delete_secret : Text → Text → Call
  list_backups : Text → Call
  get_backup : Text → Text → Call
  create_backup : Text → Text → Text → Text → Call
  get_cluster : Text → Text → Call
  create_cluster : Recovery → Call
  delete_cluster : Text → Text → Call
  list_pods : Text → Text → Call
  stat read_file remove_file : Text → Call
  write_file : Text → Text → Call
  make_dir create_temp : Text → Call
  temp_chmod temp_sync temp_close : Text → Call
  temp_write : Text → Text → Call
  rename : Text → Text → Call
  sops_decrypt : Text → Text → Call
  -- in-process encryption for one age recipient
  encrypt : Text → Text → Call
  random_bytes : ℕ → Call
  clock : Call
  -- a tick of a poll, which the context may end
  tick : Call
  -- pg_dump on this machine: its start, its killing, and its end
  remote_dump : Text → Call
  remote_kill remote_wait : Call

abbrev pub History : Type 0
History = List Call

pub record World : Type 0 where
  pub text : History → Call → Result Text
  pub done : History → Call → Result (Unit {0})
  pub both : History → Call → Result (Unit {0}) × Result (Unit {0})
  pub secret : History → Call → Result Secret
  pub backups : History → Call → Result (List Backup)
  pub backup : History → Call → Result Backup
  pub cluster : History → Call → Result Manifest
  pub pods : History → Call → Result (List Pod)
  pub number : History → Call → ℕ

abbrev pub Exec {ℓ} : Type ℓ → Type ℓ
Exec A = History → Result A × History

-- one call of each kind of answer
module _ (w : World) where
  unfoldable pub ask_text : Call → Exec Text
  ask_text c h = (w.text h c, c ∷ h)

  unfoldable pub ask_done : Call → Exec (Unit {0})
  ask_done c h = (w.done h c, c ∷ h)

  unfoldable pub ask_secret : Call → Exec Secret
  ask_secret c h = (w.secret h c, c ∷ h)

  unfoldable pub ask_backups : Call → Exec (List Backup)
  ask_backups c h = (w.backups h c, c ∷ h)

  unfoldable pub ask_backup : Call → Exec Backup
  ask_backup c h = (w.backup h c, c ∷ h)

  unfoldable pub ask_cluster : Call → Exec Manifest
  ask_cluster c h = (w.cluster h c, c ∷ h)

  unfoldable pub ask_pods : Call → Exec (List Pod)
  ask_pods c h = (w.pods h c, c ∷ h)

  unfoldable pub ask_number : Call → Exec ℕ
  ask_number c h = (ok (w.number h c), c ∷ h)
