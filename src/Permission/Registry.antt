-- ===== src/Permission/Registry.antt =====
-- shared/src/permissions.ts: the registry whole, `PANEL_PERMISSION_IDS`, `PUBLIC_OPS`, `SESSION_OPS` and
-- `SENSITIVE_PERMISSIONS`. The children hold the entries of `PANEL_PERMISSIONS`, in the file's order.
mod Hosts
mod Workloads
mod Storage
mod Work
mod Access
use server_central.Prelude.{String, List, [], ◌∷◌, ◌++◌, map, filter}
use server_central.Permission.Defs.{PermissionDef}
use Hosts.{servers_permissions, files_permissions, network_permissions}
use Workloads.{docker_permissions, compose_permissions, systemd_permissions}
use Storage.{zfs_permissions, terminal_permissions, system_users_permissions}
use Work.{tasks_permissions, dashboard_permissions, proxy_permissions, settings_permissions}
use Access.{apps_permissions, oidc_permissions, roles_permissions, users_permissions}

unfoldable pub panel_permissions : List PermissionDef
unfolding servers_permissions files_permissions docker_permissions compose_permissions
    systemd_permissions zfs_permissions network_permissions terminal_permissions
    system_users_permissions tasks_permissions dashboard_permissions proxy_permissions
    settings_permissions apps_permissions oidc_permissions roles_permissions users_permissions
panel_permissions =
    servers_permissions ++ files_permissions ++ docker_permissions ++ compose_permissions
    ++ systemd_permissions ++ zfs_permissions ++ network_permissions ++ terminal_permissions
    ++ system_users_permissions ++ tasks_permissions ++ dashboard_permissions ++ proxy_permissions
    ++ settings_permissions ++ apps_permissions ++ oidc_permissions ++ roles_permissions
    ++ users_permissions

unfoldable pub panel_permission_ids : List String
unfolding panel_permissions
panel_permission_ids = map (λ d. d.id) panel_permissions

unfoldable pub sensitive_permissions : List String
unfolding panel_permissions filter
sensitive_permissions = map (λ d. d.id) (filter (λ d. d.sensitive) panel_permissions)

unfoldable pub public_ops : List String
public_ops = "auth/getState" ∷ "auth/setupOwner" ∷ "auth/login" ∷ []

unfoldable pub session_ops : List String
session_ops =
    "auth/logout" ∷ "auth/me" ∷ "oidc/getAuthorizeRequest" ∷ "oidc/completeAuthorize"
    ∷ "oidc/getDeviceRequest" ∷ "oidc/approveDevice" ∷ "oidc/denyDevice" ∷ []
