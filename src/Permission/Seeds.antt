-- ===== src/Permission/Seeds.antt =====
-- shared/src/permissions.ts, `SEED_ROLES`: the roles that a fresh installation starts with.
use server_central.Prelude.{true, List, [], ◌∷◌}
use server_central.Permission.Defs.{RoleDef}

unfoldable pub viewer_role : RoleDef
viewer_role = record {
  id = "viewer";
  name = "Control panel viewer";
  description = "Read-only across the fleet. Can look at anything, change nothing.";
  permissions =
      "panel.compose.read" ∷ "panel.dashboard.read" ∷ "panel.docker.read" ∷ "panel.mounts.read"
      ∷ "panel.network.read" ∷ "panel.processes.read" ∷ "panel.servers.read" ∷ "panel.systemd.read"
      ∷ "panel.tasks.read" ∷ "panel.zfs.read" ∷ [];
  seeded = true;
}

unfoldable pub operator_role : RoleDef
operator_role = record {
  id = "operator";
  name = "Control panel operator";
  description =
      "Day-to-day operations: start and stop things, edit files, manage snapshots. No shell, no host enrolment, no settings.";
  permissions =
      "panel.compose.read" ∷ "panel.compose.write" ∷ "panel.dashboard.read"
      ∷ "panel.dashboard.write" ∷ "panel.docker.control" ∷ "panel.docker.deploy"
      ∷ "panel.docker.prune" ∷ "panel.docker.read" ∷ "panel.files.read" ∷ "panel.files.write"
      ∷ "panel.mounts.read" ∷ "panel.network.read" ∷ "panel.processes.read" ∷ "panel.servers.read"
      ∷ "panel.systemd.read" ∷ "panel.systemd.write" ∷ "panel.tasks.read" ∷ "panel.tasks.run"
      ∷ "panel.zfs.read" ∷ "panel.zfs.write" ∷ [];
  seeded = true;
}

unfoldable pub admin_role : RoleDef
admin_role = record {
  id = "admin";
  name = "Control panel admin";
  description =
      "Everything an operator can do, plus shells, host enrolment and settings. Not account or role management — that stays with the owner.";
  permissions =
      "panel.compose.read" ∷ "panel.compose.write" ∷ "panel.dashboard.read"
      ∷ "panel.dashboard.write" ∷ "panel.docker.control" ∷ "panel.docker.deploy"
      ∷ "panel.docker.exec" ∷ "panel.docker.prune" ∷ "panel.docker.read" ∷ "panel.exec"
      ∷ "panel.files.read" ∷ "panel.files.write" ∷ "panel.mounts.read" ∷ "panel.network.read"
      ∷ "panel.apps.admin" ∷ "panel.apps.read" ∷ "panel.oidc.admin" ∷ "panel.oidc.read"
      ∷ "panel.processes.read" ∷ "panel.proxy.admin" ∷ "panel.proxy.read" ∷ "panel.roles.read"
      ∷ "panel.servers.admin" ∷ "panel.servers.read" ∷ "panel.settings.admin"
      ∷ "panel.settings.read" ∷ "panel.systemUsers.admin" ∷ "panel.systemUsers.read"
      ∷ "panel.systemd.read" ∷ "panel.systemd.write" ∷ "panel.tasks.read" ∷ "panel.tasks.run"
      ∷ "panel.terminal" ∷ "panel.users.read" ∷ "panel.zfs.read" ∷ "panel.zfs.write" ∷ [];
  seeded = true;
}

unfoldable pub seed_roles : List RoleDef
unfolding viewer_role operator_role admin_role
seed_roles = viewer_role ∷ operator_role ∷ admin_role ∷ []
