-- ===== src/Tests/Clusters.antt =====
-- Backups and recovery clusters.
use cnpg_portal.Prelude.{
  eq_text, codes, ◌≡◌, ◌≤◌, refl, [], ◌∷◌, ◌++◌, ◌%◌, true, length, take, keep,
}
use cnpg_portal.Result.{ok}
use cnpg_portal.World.{Backup}
use cnpg_portal.World.Chain.{annotate, ◌>>=◌}
use cnpg_portal.Names.{dns1123_base}
use cnpg_portal.Cnpg.{
  after_poll, recovery_cluster_name, restore_prefix, hex4, latest_completed, wait_backup,
}
use cnpg_portal.Cnpg.Naming.{recovery_cluster_name-eq}
use cnpg_portal.Cnpg.Sorted.{IsNewest, is_completed, latest_completed-IsNewest}
use cnpg_portal.Cnpg.Waiting.{IsVerdict, wait_backup-IsVerdict}
use cnpg_portal.Tests.Fixtures.{outside, backup, app}

recovery_cluster_name-eq_example :
    (recovery_cluster_name app 4096
      ≡ restore_prefix ++ (take 47 (dns1123_base app) ++ b'-' ∷ hex4 (4096 % 65536)))
    × (length (recovery_cluster_name app 4096) ≤ 63)
recovery_cluster_name-eq_example = recovery_cluster_name-eq app 4096

abbrev running : Backup
running = backup (codes "c") (codes "running") 9

abbrev finished : Backup
finished = backup (codes "b") (codes "completed") 5

latest_completed-IsNewest_example :
    (is_completed finished ≡ true) × IsNewest finished (keep is_completed (running ∷ finished ∷ []))
unfolding latest_completed eq_text
latest_completed-IsNewest_example =
    latest_completed-IsNewest (running ∷ finished ∷ []) finished ((refl, tt), (tt, tt)) refl

wait_backup-IsVerdict_example : IsVerdict (finished, ok tt)
unfolding wait_backup ◌>>=◌ annotate after_poll eq_text
wait_backup-IsVerdict_example =
    wait_backup-IsVerdict outside 3 (codes "pg") (codes "b") [] (finished, ok tt) refl
