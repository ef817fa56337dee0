-- ===== src/Permission/Registry/Access.antt =====
-- shared/src/permissions.ts, `PANEL_PERMISSIONS`: the entries of apps, oidc, roles, users.
use server_central.Prelude.{true, false, none, some, List, [], ◌∷◌}
use server_central.Permission.Defs.{PermissionDef}

unfoldable pub apps_permissions : List PermissionDef
apps_permissions =
    record {
      id = "panel.apps.read";
      label = "View apps";
      description = "See the registered apps and the role names each one declares.";
      ops = "apps/list" ∷ [];
      tasks = [];
      events = [];
      escalation = none;
      sensitive = false;
    }
    ∷ record {
      id = "panel.apps.admin";
      label = "Manage apps";
      description = "Register and remove apps, and declare the role names they understand.";
      ops = "apps/create" ∷ "apps/update" ∷ "apps/delete" ∷ [];
      tasks = [];
      events = [];
      escalation = none;
      sensitive = false;
    }
    ∷ []

unfoldable pub oidc_permissions : List PermissionDef
oidc_permissions =
    record {
      id = "panel.oidc.read";
      label = "View SSO clients";
      description = "See registered OpenID Connect relying parties.";
      ops = "oidc/listClients" ∷ "oidc/getProviderInfo" ∷ [];
      tasks = [];
      events = [];
      escalation = none;
      sensitive = false;
    }
    ∷ record {
      id = "panel.oidc.admin";
      label = "Manage SSO clients";
      description = "Register and remove relying parties, and issue their client secrets.";
      ops =
          "oidc/createClient" ∷ "oidc/updateClient" ∷ "oidc/deleteClient" ∷ "oidc/regenerateSecret"
          ∷ [];
      tasks = [];
      events = [];
      escalation = none;
      sensitive = false;
    }
    ∷ []

unfoldable pub roles_permissions : List PermissionDef
roles_permissions =
    record {
      id = "panel.roles.read";
      label = "View roles";
      description = "See the roles defined here and which permissions each one grants.";
      ops = "auth/listRoles" ∷ [];
      tasks = [];
      events = [];
      escalation = none;
      sensitive = false;
    }
    ∷ record {
      id = "panel.roles.admin";
      label = "Define roles";
      description =
          "Create, edit and delete roles. Anyone who can define a role can define one that grants everything, so this is effectively the ability to grant oneself any permission.";
      ops = "auth/createRole" ∷ "auth/updateRole" ∷ "auth/deleteRole" ∷ "auth/resetRole" ∷ [];
      tasks = [];
      events = [];
      escalation =
          some
            "A role granting everything can be defined and then assigned by anyone who can also assign roles.";
      sensitive = true;
    }
    ∷ []

unfoldable pub users_permissions : List PermissionDef
users_permissions =
    record {
      id = "panel.users.read";
      label = "View accounts";
      description = "See control-panel accounts, their roles and their active sessions.";
      ops = "auth/listUsers" ∷ "auth/getUserDetail" ∷ "oidc/listGrants" ∷ [];
      tasks = [];
      events = [];
      escalation = none;
      sensitive = false;
    }
    ∷ record {
      id = "panel.users.admin";
      label = "Manage accounts";
      description =
          "Create and delete accounts, set passwords, assign roles and grant permissions — including granting permissions to oneself.";
      ops =
          "auth/createUser" ∷ "auth/deleteUser" ∷ "auth/setUserRoles" ∷ "auth/revokeUserSession"
          ∷ "auth/adminSetPassword" ∷ "auth/setUserSystemUser" ∷ "auth/setUserPermissions"
          ∷ "auth/setUserEmail" ∷ "oidc/revokeGrant" ∷ [];
      tasks = [];
      events = [];
      escalation =
          some
            "Granting oneself any permission is one edit away, and every root-equivalent permission is reachable from there.";
      sensitive = true;
    }
    ∷ []
