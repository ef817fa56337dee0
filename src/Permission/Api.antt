-- ===== src/Permission/Api.antt =====
-- shared/src: the operations that the domain files declare, as the qualified names that
-- `ApiOperation` derives, the task kinds of `TaskSpec` and the event kinds of `ApiEvent`.
use server_central.Prelude.{String, List, [], ◌∷◌, ◌++◌}

unfoldable pub apps_operations : List String
apps_operations = "apps/list" ∷ "apps/create" ∷ "apps/update" ∷ "apps/delete" ∷ []

unfoldable pub auth_operations : List String
auth_operations =
    "auth/getState" ∷ "auth/setupOwner" ∷ "auth/login" ∷ "auth/logout" ∷ "auth/me"
    ∷ "auth/listRoles" ∷ "auth/createRole" ∷ "auth/updateRole" ∷ "auth/deleteRole"
    ∷ "auth/resetRole" ∷ "auth/listUsers" ∷ "auth/createUser" ∷ "auth/deleteUser"
    ∷ "auth/setUserRoles" ∷ "auth/getUserDetail" ∷ "auth/revokeUserSession"
    ∷ "auth/adminSetPassword" ∷ "auth/setUserSystemUser" ∷ "auth/setUserEmail"
    ∷ "auth/setUserPermissions" ∷ []

unfoldable pub compose_operations : List String
compose_operations =
    "compose/getDefaultDir" ∷ "compose/setDefaultDir" ∷ "compose/list" ∷ "compose/listForHost"
    ∷ "compose/readForHost" ∷ "compose/create" ∷ "compose/detect" ∷ "compose/import"
    ∷ "compose/delete" ∷ "compose/getStatus" ∷ "compose/getLogs" ∷ "compose/validateContent" ∷ []

unfoldable pub dashboard_operations : List String
dashboard_operations =
    "dashboard/get" ∷ "dashboard/set" ∷ "dashboard/reset" ∷ "dashboard/fleetSummary" ∷ []

unfoldable pub docker_operations : List String
docker_operations =
    "docker/list" ∷ "docker/containerLogs" ∷ "docker/overview" ∷ "docker/containerInspect"
    ∷ "docker/containerExec" ∷ "docker/volumeInspect" ∷ "docker/volumeRemove" ∷ "docker/imageAction"
    ∷ "docker/imageDefaults" ∷ []

unfoldable pub files_operations : List String
files_operations =
    "files/listDir" ∷ "files/read" ∷ "files/write" ∷ "files/upload" ∷ "files/createDir"
    ∷ "files/delete" ∷ "files/rename" ∷ "files/getMounts" ∷ "files/listDevices" ∷ []

unfoldable pub network_operations : List String
network_operations = "network/getInfo" ∷ []

unfoldable pub oidc_operations : List String
oidc_operations =
    "oidc/listClients" ∷ "oidc/getProviderInfo" ∷ "oidc/createClient" ∷ "oidc/updateClient"
    ∷ "oidc/deleteClient" ∷ "oidc/regenerateSecret" ∷ "oidc/listGrants" ∷ "oidc/revokeGrant"
    ∷ "oidc/getAuthorizeRequest" ∷ "oidc/completeAuthorize" ∷ "oidc/getDeviceRequest"
    ∷ "oidc/approveDevice" ∷ "oidc/denyDevice" ∷ []

unfoldable pub processes_operations : List String
processes_operations = "processes/list" ∷ []

unfoldable pub proxy_operations : List String
proxy_operations =
    "proxy/getState" ∷ "proxy/setConfig" ∷ "proxy/deploy" ∷ "proxy/remove" ∷ "proxy/createRoute"
    ∷ "proxy/updateRoute" ∷ "proxy/deleteRoute" ∷ "proxy/applyConfig" ∷ []

unfoldable pub servers_operations : List String
servers_operations =
    "servers/list" ∷ "servers/delete" ∷ "servers/getMetricsHistory" ∷ "servers/redetectCapabilities"
    ∷ "servers/generateInstallCommand" ∷ "servers/installService" ∷ "servers/probeInstallPath"
    ∷ "servers/getAgentConfig" ∷ []

unfoldable pub settings_operations : List String
settings_operations =
    "settings/getConfig" ∷ "settings/setDomain" ∷ "settings/setPrimaryUrl"
    ∷ "settings/setAllowedOrigins" ∷ "settings/setTrustedProxies" ∷ "settings/getControlPlaneStatus"
    ∷ []

unfoldable pub system_users_operations : List String
system_users_operations =
    "system-users/list" ∷ "system-users/create" ∷ "system-users/hostStatus"
    ∷ "system-users/setGroups" ∷ []

unfoldable pub systemd_operations : List String
systemd_operations = "systemd/list" ∷ "systemd/serviceLogs" ∷ "systemd/unitFile" ∷ []

unfoldable pub tasks_operations : List String
tasks_operations = "tasks/list" ∷ "tasks/get" ∷ "tasks/run" ∷ "tasks/getLogs" ∷ []

unfoldable pub zfs_operations : List String
zfs_operations =
    "zfs/getState" ∷ "zfs/getDatasets" ∷ "zfs/getSnapshots" ∷ "zfs/getBlockDevices"
    ∷ "zfs/setDatasetProperty" ∷ []

unfoldable pub api_operations : List String
unfolding apps_operations auth_operations compose_operations dashboard_operations docker_operations
    files_operations network_operations oidc_operations processes_operations proxy_operations
    servers_operations settings_operations system_users_operations systemd_operations
    tasks_operations zfs_operations
api_operations =
    apps_operations ++ auth_operations ++ compose_operations ++ dashboard_operations
    ++ docker_operations ++ files_operations ++ network_operations ++ oidc_operations
    ++ processes_operations ++ proxy_operations ++ servers_operations ++ settings_operations
    ++ system_users_operations ++ systemd_operations ++ tasks_operations ++ zfs_operations

unfoldable pub task_kinds : List String
task_kinds =
    "cmd" ∷ "exec" ∷ "find_wan_ip" ∷ "service_action" ∷ "docker_stack_action"
    ∷ "docker_container_action" ∷ "docker_image_pull" ∷ "docker_compose_action" ∷ "update_agent"
    ∷ "update_control_plane" ∷ "debug_fake" ∷ "zfs_pool_create" ∷ "zfs_pool_destroy"
    ∷ "zfs_pool_import" ∷ "zfs_pool_export" ∷ "zfs_vdev_add" ∷ "zfs_device_replace" ∷ "zfs_scrub"
    ∷ "zfs_dataset_create" ∷ "zfs_dataset_destroy" ∷ "zfs_snapshot_create" ∷ "zfs_snapshot_rollback"
    ∷ "zfs_snapshot_destroy" ∷ "zfs_snapshot_clone" ∷ []

unfoldable pub event_kinds : List String
event_kinds = "init" ∷ "serversUpdate" ∷ "statusUpdate" ∷ "metrics" ∷ "taskUpdate" ∷ "taskLog" ∷ []
