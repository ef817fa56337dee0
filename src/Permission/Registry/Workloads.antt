-- ===== src/Permission/Registry/Workloads.antt =====
-- shared/src/permissions.ts, `PANEL_PERMISSIONS`: the entries of docker, compose, systemd.
use server_central.Prelude.{true, false, none, some, List, [], ◌∷◌}
use server_central.Permission.Defs.{PermissionDef}

unfoldable pub docker_permissions : List PermissionDef
docker_permissions =
    record {
      id = "panel.docker.read";
      label = "View containers";
      description = "See containers, images, volumes and their logs.";
      ops =
          "docker/list" ∷ "docker/containerLogs" ∷ "docker/overview" ∷ "docker/containerInspect"
          ∷ "docker/volumeInspect" ∷ "docker/imageDefaults" ∷ [];
      tasks = [];
      events = [];
      escalation = none;
      sensitive = false;
    }
    ∷ record {
      id = "panel.docker.control";
      label = "Control containers";
      description = "Start, stop, restart, pause and remove existing containers and stacks.";
      ops = [];
      tasks = "docker_stack_action" ∷ "docker_container_action" ∷ [];
      events = [];
      escalation = none;
      sensitive = false;
    }
    ∷ record {
      id = "panel.docker.deploy";
      label = "Deploy stacks";
      description = "Bring compose stacks up and down, and pull images.";
      ops = [];
      tasks = "docker_compose_action" ∷ "docker_image_pull" ∷ [];
      events = [];
      escalation =
          some
            "Bringing a stack up instantiates whatever its compose file declares — a bind mount of /, --privileged, or the docker socket itself. Paired with permission to edit that file, it is root on the host.";
      sensitive = false;
    }
    ∷ record {
      id = "panel.docker.prune";
      label = "Remove images & volumes";
      description = "Delete images and volumes, including data that isn't backed up anywhere else.";
      ops = "docker/volumeRemove" ∷ "docker/imageAction" ∷ [];
      tasks = [];
      events = [];
      escalation = none;
      sensitive = false;
    }
    ∷ record {
      id = "panel.docker.exec";
      label = "Run commands in containers";
      description = "Execute arbitrary commands inside any container.";
      ops = "docker/containerExec" ∷ [];
      tasks = [];
      events = [];
      escalation =
          some
            "A shell in a container that mounts host paths, or runs privileged, is a shell on the host.";
      sensitive = true;
    }
    ∷ []

unfoldable pub compose_permissions : List PermissionDef
compose_permissions =
    record {
      id = "panel.compose.read";
      label = "View compose stacks";
      description = "See registered stacks, their services, status and logs.";
      ops =
          "compose/list" ∷ "compose/listForHost" ∷ "compose/readForHost" ∷ "compose/getStatus"
          ∷ "compose/getLogs" ∷ "compose/validateContent" ∷ "compose/detect"
          ∷ "compose/getDefaultDir" ∷ [];
      tasks = [];
      events = [];
      escalation = none;
      sensitive = false;
    }
    ∷ record {
      id = "panel.compose.write";
      label = "Manage compose stacks";
      description = "Create, import and delete stacks, and edit their compose files.";
      ops = "compose/create" ∷ "compose/import" ∷ "compose/delete" ∷ "compose/setDefaultDir" ∷ [];
      tasks = [];
      events = [];
      escalation =
          some
            "A compose file is a container definition: mounting / into a container, or granting it the docker socket, makes it root on the host. This is the permission that writes them.";
      sensitive = false;
    }
    ∷ []

unfoldable pub systemd_permissions : List PermissionDef
systemd_permissions =
    record {
      id = "panel.systemd.read";
      label = "View services";
      description = "See systemd units, their state, logs and unit files.";
      ops = "systemd/list" ∷ "systemd/serviceLogs" ∷ "systemd/unitFile" ∷ [];
      tasks = [];
      events = [];
      escalation = none;
      sensitive = false;
    }
    ∷ record {
      id = "panel.systemd.write";
      label = "Control services";
      description = "Start, stop, restart and reload systemd units.";
      ops = [];
      tasks = "service_action" ∷ [];
      events = [];
      escalation = none;
      sensitive = false;
    }
    ∷ []
