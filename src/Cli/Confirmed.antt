-- ===== src/Cli/Confirmed.antt =====
-- The commands that ask for --yes-i-mean-it (cmd/cnpgctl: drop.go, rotate.go and sync.go).
use cnpg_portal.Prelude.{ap, Text, false, arith}
use cnpg_portal.Result.{Result}
use cnpg_portal.World.{World, Exec, History}
use cnpg_portal.World.Chain.{◌>>=◌, continue}
use cnpg_portal.Sops.{Rules}
use cnpg_portal.ClusterYaml.Roles.{Yaml}
use cnpg_portal.Workspace.{Workspace}
use cnpg_portal.Tenant.Guards.{
  Refuses, Refuses-lift, drop_tenant-Refuses, rotate-Refuses, sync-Refuses,
}
use cnpg_portal.Cli.{deps_of}
use cnpg_portal.Cli.Commands.{drop_command, rotate_command, sync_command}

Refuses-bind {ℓ κ} :
    {A : Type ℓ} {B : Type κ} (m : Exec A) (f : A → Exec B) (h : History)
    → Refuses m h
    → Refuses (m >>= f) h
unfolding ◌>>=◌
Refuses-bind m f h (e, p) = (e, ap (λ r. continue r.0 f r.1) p)

-- Without --yes-i-mean-it the commands drop, rotate and sync fail and make no call, whatever the
-- names are and whatever workspace the flags have found.
pub commands-Refuses :
    (w : World) (rules : Rules) (yaml : Yaml) (found : Result Workspace) (app src : Text)
    (h : History)
    → Refuses (drop_command w rules yaml found app false) h
      × Refuses (rotate_command w rules yaml found app false) h
      × Refuses (sync_command w rules yaml found src app false) h
unfolding drop_command rotate_command sync_command
commands-Refuses w rules yaml found app src h = (
  Refuses-lift found _ h λ ws e.
      Refuses-bind _ _ h (drop_tenant-Refuses w rules yaml (deps_of ws) h app false (ground arith)),
  Refuses-lift found _ h λ ws e.
      Refuses-bind _ _ h (rotate-Refuses w rules yaml (deps_of ws) h app false (ground arith)),
  Refuses-lift found _ h λ ws e.
      Refuses-bind _ _ h (sync-Refuses w rules yaml (deps_of ws) h src app false (ground arith)),
)
