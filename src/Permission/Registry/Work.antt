-- ===== src/Permission/Registry/Work.antt =====
-- shared/src/permissions.ts, `PANEL_PERMISSIONS`: the entries of tasks, dashboard, proxy, settings.
use server_central.Prelude.{false, none, some, List, [], ◌∷◌}
use server_central.Permission.Defs.{PermissionDef}

unfoldable pub tasks_permissions : List PermissionDef
tasks_permissions =
    record {
      id = "panel.tasks.read";
      label = "View tasks";
      description = "See task history, results and live logs.";
      ops = "tasks/list" ∷ "tasks/get" ∷ "tasks/getLogs" ∷ [];
      tasks = [];
      events = "taskUpdate" ∷ "taskLog" ∷ [];
      escalation = none;
      sensitive = false;
    }
    ∷ record {
      id = "panel.tasks.run";
      label = "Run tasks";
      description = "Start task runs. Each kind needs its own permission on top of this.";
      ops = "tasks/run" ∷ [];
      tasks = [];
      events = [];
      escalation = none;
      sensitive = false;
    }
    ∷ []

unfoldable pub dashboard_permissions : List PermissionDef
dashboard_permissions =
    record {
      id = "panel.dashboard.read";
      label = "View dashboards";
      description =
          "See the widget layout on a host's overview, and the fleet overview's summary of stacks, failed units and pool health across hosts.";
      ops = "dashboard/get" ∷ "dashboard/fleetSummary" ∷ [];
      tasks = [];
      events = [];
      escalation = none;
      sensitive = false;
    }
    ∷ record {
      id = "panel.dashboard.write";
      label = "Arrange host dashboards";
      description = "Add, remove and rearrange host overview widgets for everyone.";
      ops = "dashboard/set" ∷ "dashboard/reset" ∷ [];
      tasks = [];
      events = [];
      escalation = none;
      sensitive = false;
    }
    ∷ []

unfoldable pub proxy_permissions : List PermissionDef
proxy_permissions =
    record {
      id = "panel.proxy.read";
      label = "View reverse proxy";
      description = "See proxy configuration, routes and status.";
      ops = "proxy/getState" ∷ [];
      tasks = [];
      events = [];
      escalation = none;
      sensitive = false;
    }
    ∷ record {
      id = "panel.proxy.admin";
      label = "Manage reverse proxy";
      description =
          "Configure the proxy, deploy it, and add or remove routes — which decides what is exposed to the internet.";
      ops =
          "proxy/setConfig" ∷ "proxy/deploy" ∷ "proxy/remove" ∷ "proxy/createRoute"
          ∷ "proxy/updateRoute" ∷ "proxy/deleteRoute" ∷ "proxy/applyConfig" ∷ [];
      tasks = [];
      events = [];
      escalation =
          some
            "Deploying the proxy runs a container with mounted volumes on the chosen node, and routes decide what is reachable from the internet.";
      sensitive = false;
    }
    ∷ []

unfoldable pub settings_permissions : List PermissionDef
settings_permissions =
    record {
      id = "panel.settings.read";
      label = "View settings";
      description = "See control-plane configuration and update status.";
      ops = "settings/getConfig" ∷ "settings/getControlPlaneStatus" ∷ [];
      tasks = [];
      events = [];
      escalation = none;
      sensitive = false;
    }
    ∷ record {
      id = "panel.settings.admin";
      label = "Change settings";
      description =
          "Edit the primary URL, agent domain, allowed origins and trusted proxies, and update the control plane itself.";
      ops =
          "settings/setDomain" ∷ "settings/setPrimaryUrl" ∷ "settings/setAllowedOrigins"
          ∷ "settings/setTrustedProxies" ∷ [];
      tasks = "update_control_plane" ∷ "debug_fake" ∷ [];
      events = [];
      escalation =
          some
            "Replaces the control plane's own binary, and edits the trusted-proxy list that decides which client addresses are believed.";
      sensitive = false;
    }
    ∷ []
