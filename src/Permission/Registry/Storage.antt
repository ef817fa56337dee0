-- ===== src/Permission/Registry/Storage.antt =====
-- shared/src/permissions.ts, `PANEL_PERMISSIONS`: the entries of zfs, terminal, system_users.
use server_central.Prelude.{true, false, none, some, List, [], ◌∷◌}
use server_central.Permission.Defs.{PermissionDef}

unfoldable pub zfs_permissions : List PermissionDef
zfs_permissions =
    record {
      id = "panel.zfs.read";
      label = "View ZFS";
      description = "See pools, datasets, snapshots and available disks.";
      ops = "zfs/getState" ∷ "zfs/getDatasets" ∷ "zfs/getSnapshots" ∷ "zfs/getBlockDevices" ∷ [];
      tasks = [];
      events = [];
      escalation = none;
      sensitive = false;
    }
    ∷ record {
      id = "panel.zfs.write";
      label = "Manage datasets & snapshots";
      description = "Create and destroy datasets and snapshots, roll back, clone, scrub.";
      ops = "zfs/setDatasetProperty" ∷ [];
      tasks =
          "zfs_scrub" ∷ "zfs_dataset_create" ∷ "zfs_dataset_destroy" ∷ "zfs_snapshot_create"
          ∷ "zfs_snapshot_rollback" ∷ "zfs_snapshot_destroy" ∷ "zfs_snapshot_clone" ∷ [];
      events = [];
      escalation = none;
      sensitive = false;
    }
    ∷ record {
      id = "panel.zfs.admin";
      label = "Pool & vdev surgery";
      description =
          "Create, destroy, import and export pools, add vdevs, replace devices. The highest blast radius in the system — a mistake here loses data irrecoverably.";
      ops = [];
      tasks =
          "zfs_pool_create" ∷ "zfs_pool_destroy" ∷ "zfs_pool_import" ∷ "zfs_pool_export"
          ∷ "zfs_vdev_add" ∷ "zfs_device_replace" ∷ [];
      events = [];
      escalation =
          some
            "Importing a pool mounts filesystems chosen by whoever created it, at mountpoints it chooses.";
      sensitive = false;
    }
    ∷ []

unfoldable pub terminal_permissions : List PermissionDef
terminal_permissions =
    record {
      id = "panel.terminal";
      label = "Open terminals";
      description =
          "Open a shell on any host, as the mapped system user (or root if unmapped and privileged).";
      ops = [];
      tasks = [];
      events = [];
      escalation = some "An unmapped holder gets the agent's own shell, which is root.";
      sensitive = true;
    }
    ∷ record {
      id = "panel.exec";
      label = "Run host commands";
      description =
          "Run arbitrary commands on any host as a task, with or without a shell. Equivalent to terminal access.";
      ops = [];
      tasks = "cmd" ∷ "exec" ∷ [];
      events = [];
      escalation = some "Runs any command as the agent's user, which is root.";
      sensitive = true;
    }
    ∷ []

unfoldable pub system_users_permissions : List PermissionDef
system_users_permissions =
    record {
      id = "panel.systemUsers.read";
      label = "View host accounts";
      description = "See OS accounts on hosts and how they map to control-panel users.";
      ops = "system-users/list" ∷ "system-users/hostStatus" ∷ [];
      tasks = [];
      events = [];
      escalation = none;
      sensitive = false;
    }
    ∷ record {
      id = "panel.systemUsers.admin";
      label = "Manage host accounts";
      description =
          "Create OS accounts on hosts and change their group membership — including groups that grant root-equivalent access.";
      ops = "system-users/create" ∷ "system-users/setGroups" ∷ [];
      tasks = [];
      events = [];
      escalation =
          some
            "Adding an account to the sudo or docker group is root, and both groups are assignable here.";
      sensitive = true;
    }
    ∷ []
