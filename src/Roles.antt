-- ===== src/Roles.antt =====
-- apps/server/src/roles.ts: the role definitions, seeded on the first run and owned by the
-- installation from then on. `randomUUID()` enters as an argument. `file` is what `roles.json` holds:
-- `persist` copies the roles there, and writes are taken to succeed.
mod Tests
pub mod Laws
use server_central.Prelude.{
  ℕ, String, Bool, true, false, not, ◌&&◌, List, [], ◌∷◌, Option, none, some, Result, ok, err,
  ◌>>=◌, ◌>>◌, ensure, if◌then◌else◌, ltb, is_empty, is_some, trim, starts_with, ends_with_wildcard,
  includes,
}
use server_central.Prelude.Dict.{Dict, get, put, remove, values}
use server_central.Prelude.Clean.{clean}
use server_central.Permission.Defs.{RoleDef}
use server_central.Permission.Registry.{panel_permission_ids}
use server_central.Permission.Seeds.{seed_roles}
use server_central.Permission.Match.{is_valid_permission}
use server_central.Permission.Subject.{seed_role_for}

pub record RoleStore : Type 0 where
  pub roles : Dict RoleDef
  pub file : Dict RoleDef

pub data RoleError : Type 0 where
  role_not_found name_required no_default : RoleError
  still_held : (held_by : ℕ) → RoleError
  invalid_node unknown_node : String → RoleError

abbrev persist : RoleStore → RoleStore
persist s = record s { file = s.roles }

seed : Dict RoleDef → List RoleDef → Dict RoleDef
seed roles [] = roles
seed roles (r ∷ rs) = seed (put roles r.id r) rs

seed_if_empty : Dict RoleDef → RoleStore
unfolding seed
seed_if_empty [] = persist (record { roles = seed [] seed_roles; file = [] })
seed_if_empty (e ∷ es) = record { roles = e ∷ es; file = e ∷ es }

-- `none` where the file is missing or no JSON.
unfoldable pub init : Option (Dict RoleDef) → RoleStore
unfolding seed_if_empty
init none = seed_if_empty []
init (some roles) = seed_if_empty roles

unfoldable pub list : RoleStore → List RoleDef
list s = values s.roles

unfoldable pub get_role : RoleStore → String → Option RoleDef
get_role s id = get s.roles id

-- The roles a user holds, without the ids that no longer exist.
unfoldable pub resolve : RoleStore → List String → List RoleDef
resolve s [] = []
resolve s (id ∷ ids) =
    let rest = resolve s ids in elim (get s.roles id) [ some r ↦ r ∷ rest | none ↦ rest ]

unfoldable pub require_name : String → Result RoleError String
require_name name = do ensure (not (is_empty (trim name))) name_required; ok (trim name)

-- One round of `validatePermissions`; `none` skips an empty entry.
unfoldable pub check_node : String → Result RoleError (Option String)
check_node raw =
    let node = trim raw in
    if is_empty node
    then ok none
    else if not (is_valid_permission node)
    then err (invalid_node node)
    else if starts_with node "panel."
        && not (ends_with_wildcard node)
        && not (includes panel_permission_ids node)
    then err (unknown_node node)
    else ok (some node)

unfoldable pub validate_permissions : List String → Result RoleError (List String)
validate_permissions permissions = clean check_node [] permissions

unfoldable pub create :
    String → String → String → List String → RoleStore → Result RoleError (RoleDef × RoleStore)
create uuid name description permissions s = do
  checked_name ← require_name name
  checked ← validate_permissions permissions
  let role : RoleDef = record {
    id = uuid;
    name = checked_name;
    description = trim description;
    permissions = checked;
    seeded = false;
  }
  ok (role, persist (record s { roles = put s.roles uuid role }))

update_existing : Option RoleDef → RoleDef → RoleStore → Result RoleError RoleStore
update_existing none role s = err role_not_found
update_existing (some existing) role s = do
  checked_name ← require_name role.name
  checked ← validate_permissions role.permissions
  let next : RoleDef = record existing {
    name = checked_name;
    description = trim role.description;
    permissions = checked;
  }
  ok (persist (record s { roles = put s.roles role.id next }))

unfoldable pub update : RoleDef → RoleStore → Result RoleError RoleStore
unfolding update_existing
update role s = update_existing (get s.roles role.id) role s

-- `held_by` is how many accounts hold the role.
unfoldable pub delete : String → ℕ → RoleStore → Result RoleError RoleStore
delete role_id held_by s =
    if not (is_some (get s.roles role_id))
    then ok s
    else if ltb 0 held_by
    then err (still_held held_by)
    else ok (persist (record s { roles = remove s.roles role_id }))

unfoldable pub reset_to_seed : String → RoleStore → Result RoleError (RoleDef × RoleStore)
reset_to_seed role_id s = elim (seed_role_for role_id) [
  | none ↦ err no_default
  | some default ↦ ok (default, persist (record s { roles = put s.roles default.id default }))
]
