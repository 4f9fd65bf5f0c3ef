-- ===== src/Tenant/Rotated.antt =====
-- internal/tenant/rotate.go: the password of a tenant in a rotation that succeeds.
use cnpg_portal.World.{World}
use cnpg_portal.Workspace.{Workspace}
use cnpg_portal.Tenant.{Tenant}
