-- ===== src/Permission/Registry/Hosts.antt =====
-- shared/src/permissions.ts, `PANEL_PERMISSIONS`: the entries of servers, files, network.
use server_central.Prelude.{false, none, some, List, [], ◌∷◌}
use server_central.Permission.Defs.{PermissionDef}

unfoldable pub servers_permissions : List PermissionDef
servers_permissions =
    record {
      id = "panel.servers.read";
      label = "View hosts";
      description = "See the fleet, host metrics and live status.";
      ops =
          "servers/list" ∷ "servers/getMetricsHistory" ∷ "servers/redetectCapabilities"
          ∷ "servers/getAgentConfig" ∷ [];
      tasks = [];
      events = "init" ∷ "serversUpdate" ∷ "statusUpdate" ∷ "metrics" ∷ [];
      escalation = none;
      sensitive = false;
    }
    ∷ record {
      id = "panel.servers.admin";
      label = "Manage hosts";
      description = "Enrol new hosts, install and update agents, remove hosts from the fleet.";
      ops =
          "servers/delete" ∷ "servers/generateInstallCommand" ∷ "servers/probeInstallPath"
          ∷ "servers/installService" ∷ [];
      tasks = "update_agent" ∷ [];
      events = [];
      escalation =
          some
            "Installs and updates the agent, which runs as root, and hands out enrolment commands that let a new machine join the fleet.";
      sensitive = false;
    }
    ∷ []

unfoldable pub files_permissions : List PermissionDef
files_permissions =
    record {
      id = "panel.files.read";
      label = "Browse files";
      description = "Browse directories and read the contents of any file on any host.";
      ops = "files/listDir" ∷ "files/read" ∷ [];
      tasks = [];
      events = [];
      escalation =
          some
            "Reads every path as root — private keys, /etc/shadow, and Server Central's own data directory, which holds session tokens and the agent enrolment token. Reading those tokens is enough to act as another user.";
      sensitive = false;
    }
    ∷ record {
      id = "panel.mounts.read";
      label = "View mounts & devices";
      description =
          "See mounted filesystems and mappable devices — an inventory of the host, with no file contents.";
      ops = "files/getMounts" ∷ "files/listDevices" ∷ [];
      tasks = [];
      events = [];
      escalation = none;
      sensitive = false;
    }
    ∷ record {
      id = "panel.files.write";
      label = "Modify files";
      description = "Create, edit, rename, upload and delete files anywhere on any host.";
      ops =
          "files/write" ∷ "files/upload" ∷ "files/createDir" ∷ "files/delete" ∷ "files/rename" ∷ [];
      tasks = [];
      events = [];
      escalation =
          some
            "Writes every path as root. A file dropped in /etc/sudoers.d, ~/.ssh/authorized_keys or a systemd unit is a root shell.";
      sensitive = false;
    }
    ∷ []

unfoldable pub network_permissions : List PermissionDef
network_permissions =
    record {
      id = "panel.network.read";
      label = "View network";
      description = "See interfaces and addresses, and run WAN address probes.";
      ops = "network/getInfo" ∷ [];
      tasks = "find_wan_ip" ∷ [];
      events = [];
      escalation = none;
      sensitive = false;
    }
    ∷ record {
      id = "panel.processes.read";
      label = "View processes";
      description = "See the process list on any host.";
      ops = "processes/list" ∷ [];
      tasks = [];
      events = [];
      escalation = none;
      sensitive = false;
    }
    ∷ []
