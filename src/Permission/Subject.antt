-- ===== src/Permission/Subject.antt =====
-- shared/src/permissions.ts: roles, what a user effectively holds, and the checks on a user.
pub mod Grants
use server_central.Prelude.{
  String, Bool, true, false, not, ◌&&◌, ◌||◌, List, [], ◌∷◌, ◌++◌, map, Option, none, some, ◌===◌,
  ◌==◌, if◌then◌else◌, is_some, length, includes, filter, find, push_new, or_else,
}
use server_central.Prelude.Dict.{get}
use server_central.Permission.Defs.{PermissionDef, RoleDef, PermissionSubject}
use server_central.Permission.Registry.{panel_permissions, panel_permission_ids}
use server_central.Permission.Seeds.{seed_roles}
use server_central.Permission.Match.{has_permission}
use server_central.Permission.Requirements.{task_kind_permissions, event_permissions}

-- `null` for a custom role.
unfoldable pub seed_role_for : String → Option RoleDef
unfolding find
seed_role_for id = find (λ r. r.id === id) seed_roles

-- `roles.flatMap((r) => r.permissions)`
unfoldable pub granted_by : List RoleDef → List String
granted_by [] = []
granted_by (r ∷ rs) = r.permissions ++ granted_by rs

unfoldable pub unassigned_permissions : List RoleDef → List String
unfolding granted_by filter
unassigned_permissions roles =
    filter (λ id. not (includes (granted_by roles) id)) panel_permission_ids

-- The loop pushes each node that is not there yet.
unfoldable pub effective_permissions : Bool → List RoleDef → List String → List String
unfolding granted_by push_new
effective_permissions is_owner roles extra =
    push_new (if is_owner then "*" ∷ [] else [])
      ((if is_owner then [] else granted_by roles) ++ extra)

unfoldable pub user_can : Option PermissionSubject → String → Bool
user_can none required = false
user_can (some user) required = user.is_owner || has_permission user.permissions required

-- A kind that no node lists has no requirement to compare with; the source's type rules it out.
unfoldable pub can_run_task : Option PermissionSubject → String → Bool
can_run_task user kind =
    user_can user "panel.tasks.run"
    && (elim (get task_kind_permissions kind) [ some node ↦ user_can user node | none ↦ false ])

unfoldable pub event_permission : String → Option String
event_permission kind = get event_permissions kind

-- The nodes among a set of permissions that lead to root, each with its note.
escalation_notes : List String → List PermissionDef → List (String × String)
escalation_notes permissions [] = []
escalation_notes permissions (d ∷ ds) =
    let rest = escalation_notes permissions ds in
    elim d.escalation [
      | none ↦ rest
      | some why ↦ if includes permissions d.id then (d.id, why) ∷ rest else rest
    ]

unfoldable pub escalations_in : List String → List (String × String)
unfolding escalation_notes
escalations_in permissions = escalation_notes permissions panel_permissions
