-- ===== src/Permission/Subject/Grants.antt =====
-- What a user effectively holds, and what that lets the user do.
use server_central.Prelude.{
  String, Bool, true, false, ◌||◌, List, [], ◌∷◌, ◌++◌, Option, some, ◌===◌, if◌then◌else◌, ◌≡◌,
  refl, ◌↔◌, inl, inr, arith, includes, includes-append, includes-push_new, IsNodup,
  push_new-IsNodup, Option-cases,
}
use server_central.Prelude.Dict.{get}
use server_central.Permission.Defs.{RoleDef, PermissionSubject}
use server_central.Permission.Matching.{has_permission_mono, Within}
use server_central.Permission.Requirements.{task_kind_permissions}
use server_central.Permission.Subject.{granted_by, effective_permissions, user_can, can_run_task}

-- The effective set holds exactly what the roles and the account's own grants hold; of an owner it
-- holds `*` and the account's own grants.
includes-effective_permissions :
    (is_owner : Bool) (roles : List RoleDef) (extra : List String) (a : String)
    → includes (effective_permissions is_owner roles extra) a
      ≡ ((if is_owner then "*" === a else includes (granted_by roles) a) || includes extra a)
unfolding effective_permissions includes
includes-effective_permissions true roles extra a =
    ground (arith, includes-push_new ("*" ∷ []) ([] ++ extra) a)
includes-effective_permissions false roles extra a = ground (
  arith,
  includes-push_new [] (granted_by roles ++ extra) a,
  includes-append (granted_by roles) extra a,
)

-- No node stands in the effective set twice.
pub effective_permissions-IsNodup :
    (is_owner : Bool) (roles : List RoleDef) (extra : List String)
    → IsNodup (effective_permissions is_owner roles extra)
unfolding effective_permissions
effective_permissions-IsNodup true roles extra =
    push_new-IsNodup ("*" ∷ []) ([] ++ extra) (unfold includes in refl, tt)
effective_permissions-IsNodup false roles extra = push_new-IsNodup [] (granted_by roles ++ extra) tt

abbrev subject : Bool → List RoleDef → List String → Option PermissionSubject
subject is_owner roles extra =
    some (record { is_owner = is_owner; permissions = effective_permissions is_owner roles extra })

-- Giving an account one more role takes nothing away from it.
pub user_can-add_role :
    (is_owner : Bool) (role : RoleDef) (roles : List RoleDef) (extra : List String)
    (required : String)
    → user_can (subject is_owner roles extra) required ≡ true
    → user_can (subject is_owner (role ∷ roles) extra) required ≡ true
unfolding user_can
user_can-add_role true role roles extra required h = refl
user_can-add_role false role roles extra required h =
    has_permission_mono (effective_permissions false roles extra)
      (effective_permissions false (role ∷ roles) extra) required wider h
  where
    wider :
        Within
          (effective_permissions false roles extra)
          (effective_permissions false (role ∷ roles) extra)
    wider a i =
        unfold granted_by in
        ground (
          arith,
          includes-effective_permissions false roles extra a,
          includes-effective_permissions false (role ∷ roles) extra a,
          includes-append role.permissions (granted_by roles) a,
        )

-- A run of a task kind passes exactly if the user may run tasks at all and the kind has a node,
-- which the user holds.
can_run_task_iff :
    (user : Option PermissionSubject) (kind : String)
    → (can_run_task user kind ≡ true) ↔ (
        (user_can user "panel.tasks.run" ≡ true)
        × ((node : String) × (get task_kind_permissions kind ≡ some node)
            × (user_can user node ≡ true)))
unfolding can_run_task
can_run_task_iff user kind = elim (Option-cases (get task_kind_permissions kind)) [
  | inl e ↦ (λ h. ground arith, λ h. cc (h.1.1))
  | inr (node, e) ↦
      (λ h. (ground arith, (node, e, ground arith)), λ h. ground (arith, h.0, h.1.1, h.1.2))
]
