-- ===== src/Cnpg.antt =====
-- internal/cnpg: backups (backup.go) and recovery clusters (cluster.go). `parseBackup` is the
-- outside's: an answer is a `Backup`. A poll loop takes the number of ticks that come before its
-- context ends.
pub mod Sorted
pub mod Naming
pub mod Waiting
use cnpg_portal.Prelude.{
  take, length, ◌++◌, ◌-◌, [], ◌||◌, ◌&&◌, ◌%◌, ◌+◌, is_empty, keep, false, ◌/◌, ◌∷◌, eq_text, ltb,
  ℕ, zero, suc, Text, codes, List, Bool, if◌then◌else◌, Option, none, some,
}
use cnpg_portal.Result.{Result, ok, err, wrapped, message, err_backup_failed, err_context}
use cnpg_portal.World.{
  create_cluster, list_backups, list_pods, create_backup, delete_cluster, get_backup, get_cluster,
  ask_cluster, ask_backups, ask_pods, ask_backup, clock, ask_done, ask_number, World, Exec, Backup,
  Pod, Manifest,
}
use cnpg_portal.World.Chain.{lift, pure, raise, ◌>>◌, outcome, annotate, ◌>>=◌}
use cnpg_portal.Strings.{trim_right, trim_space}
use cnpg_portal.Strings.Decimal.{itoa}
use cnpg_portal.Names.{dns1123_base, is_dash}

abbrev pub phase_completed : Text
phase_completed = codes "completed"

abbrev pub phase_failed : Text
phase_failed = codes "failed"

-- a before b: a.StartedAt.After(b.StartedAt)
abbrev pub newer : Backup → Backup → Bool
newer a b = ltb b.started_at a.started_at

unfoldable pub insert : Backup → List Backup → List Backup
insert b [] = b ∷ []
insert b (c ∷ cs) = let rest = insert b cs in if newer c b then c ∷ rest else b ∷ c ∷ cs

-- sort.Slice, newest first
unfoldable pub sort_backups : List Backup → List Backup
unfolding insert
sort_backups [] = []
sort_backups (b ∷ bs) = insert b (sort_backups bs)

abbrev pub of_cluster : Text → Backup → Bool
of_cluster name b = eq_text b.cluster name

unfoldable pub filter_cluster : Text → List Backup → List Backup
filter_cluster [] bs = bs
filter_cluster (c ∷ name) bs = keep (of_cluster (c ∷ name)) bs

unfoldable pub latest_completed : List Backup → Option Backup
latest_completed [] = none
latest_completed (b ∷ bs) =
    let later = latest_completed bs in if eq_text b.phase phase_completed then some b else later

abbrev ready_condition : Text × Text → Bool
ready_condition c = eq_text c.0 (codes "Ready") && eq_text c.1 (codes "True")

unfoldable pub pod_container_ready : List (Text × Text) → Bool
pod_container_ready [] = false
pod_container_ready (c ∷ cs) = ready_condition c || pod_container_ready cs

unfoldable pub first_ready : List Pod → Option Text
unfolding pod_container_ready
first_ready [] = none
first_ready (p ∷ ps) =
    let later = first_ready ps in
    if p.running && pod_container_ready p.conditions then some p.name else later

abbrev pub plugin_name : Text
plugin_name = codes "barman-cloud.cloudnative-pg.io"

unfoldable pub find_store : List (Text × Text) → Result Text
find_store [] = err (message (codes "base cluster missing barman-cloud plugin"))
find_store (p ∷ ps) =
    let later = find_store ps in
    if eq_text p.0 plugin_name
    then if is_empty p.1
      then err (message (codes "barman-cloud plugin missing parameters.barmanObjectName"))
      else ok p.1
    else later

unfoldable pub barman_object_store_name : Manifest → Result Text
unfolding find_store
barman_object_store_name m = elim m.plugins [
  | none ↦ err (message (codes "base cluster missing spec.plugins barman-cloud entry"))
  | some ps ↦ find_store ps
]

abbrev pub hex_lower : ℕ → ℕ
hex_lower d = if ltb d 10 then b'0' + d else b'a' + (d - 10)

-- %04x
unfoldable pub hex4 : ℕ → Text
hex4 n =
    hex_lower (n / 4096 % 16)
    ∷ hex_lower (n / 256 % 16)
    ∷ hex_lower (n / 16 % 16)
    ∷ hex_lower (n % 16)
    ∷ []

abbrev pub restore_prefix : Text
restore_prefix = codes "pg-restore-"

-- RecoveryClusterName at the time `now` (UnixNano)
unfoldable pub recovery_cluster_name : Text → ℕ → Text
unfolding hex4
recovery_cluster_name app now =
    let suffix = b'-' ∷ hex4 (now % 65536) in
    let room = 63 - length restore_prefix - length suffix in
    let max_len = if ltb room 1 then 1 else room in
    trim_right is_dash (take 63 (restore_prefix ++ (take max_len (dns1123_base app) ++ suffix)))

abbrev pub require_text : Text → Text → Result (Unit {0})
require_text [] what = err (message what)
require_text (c ∷ s) what = ok tt

-- the switch on the phase, and what comes at the next tick
unfoldable pub after_poll :
    Backup → Exec (Backup × Result (Unit {0})) → Exec (Backup × Result (Unit {0}))
after_poll b next =
    if eq_text b.phase phase_completed
    then pure (b, ok tt)
    else if eq_text b.phase phase_failed
    then pure (b, err err_backup_failed)
    else next

-- if name, err := try(); err == nil && name != "" { return name, nil }
unfoldable pub after_try : Result Text → Exec Text → Exec Text
after_try (err e) next = next
after_try (ok []) next = next
after_try (ok (c ∷ name)) next = pure (c ∷ name)

module _ (w : World) where
  unfoldable pub sorted_backups : Text → Text → Exec (List Backup)
  unfolding filter_cluster sort_backups
  sorted_backups namespace cluster = do
    all_backups ←
        annotate (wrapped (codes "list cnpg backups")) (ask_backups w (list_backups namespace))
    pure (sort_backups (filter_cluster cluster all_backups))

  unfoldable pub trigger : Text → Text → Text → Exec Backup
  trigger namespace cluster triggered_by = do
    now ← ask_number w clock
    annotate (wrapped (codes "create cnpg backup")) (
        ask_backup w (
          create_backup namespace (codes "ondemand-" ++ (triggered_by ++ (b'-' ∷ itoa now))) cluster
            triggered_by))

  -- The second part is the error that is returned together with the backup.
  unfoldable pub wait_backup : ℕ → Text → Text → Exec (Backup × Result (Unit {0}))
  wait_backup zero namespace name = do
    b ← annotate (wrapped (codes "get cnpg backup")) (ask_backup w (get_backup namespace name))
    after_poll b (pure (b, err err_context))
  wait_backup (suc ticks) namespace name = do
    b ← annotate (wrapped (codes "get cnpg backup")) (ask_backup w (get_backup namespace name))
    after_poll b (wait_backup ticks namespace name)

  unfoldable pub get_base_cluster : Text → Text → Exec Manifest
  get_base_cluster namespace name =
      annotate (wrapped (codes "get cluster")) (ask_cluster w (get_cluster namespace name))

  unfoldable pub create_recovery_cluster :
      Text → Text → Text → Manifest → Option Text → Exec (Unit {0})
  unfolding barman_object_store_name
  create_recovery_cluster namespace name backup_id base target_time = do
    lift (require_text base.name (codes "base cluster missing metadata.name"))
    lift (require_text (trim_space backup_id) (codes "backupID is required for plugin recovery"))
    lift (require_text base.image_name (codes "base cluster missing spec.imageName"))
    lift (require_text base.storage (codes "base cluster missing spec.storage"))
    object_store ← lift (barman_object_store_name base)
    annotate (wrapped (codes "create recovery cluster")) (
        ask_done w (
          create_cluster (record {
            name = name;
            namespace = namespace;
            source = base.name;
            backup_id = backup_id;
            target_time = target_time;
            image_name = base.image_name;
            storage = base.storage;
            object_store = object_store;
          })))

  unfoldable pub delete_recovery_cluster : Text → Text → Exec (Unit {0})
  delete_recovery_cluster namespace name =
      annotate (wrapped (codes "delete cluster")) (ask_done w (delete_cluster namespace name))

  unfoldable pub primary_pod_name : Text → Text → Exec Text
  unfolding first_ready
  primary_pod_name namespace cluster = do
    pods ← annotate (wrapped (codes "list pods")) (ask_pods w (list_pods namespace cluster))
    elim (first_ready pods) [
      | none ↦ raise (message (codes "no running instance pod found for cluster"))
      | some name ↦ pure name
    ]

  -- every error of a try is one more wait
  unfoldable pub wait_primary_pod : ℕ → Text → Text → Exec Text
  unfolding primary_pod_name after_try
  wait_primary_pod zero namespace cluster = do
    tried ← outcome (primary_pod_name namespace cluster)
    after_try tried (raise (wrapped (codes "wait primary pod") err_context))
  wait_primary_pod (suc ticks) namespace cluster = do
    tried ← outcome (primary_pod_name namespace cluster)
    after_try tried (wait_primary_pod ticks namespace cluster)
