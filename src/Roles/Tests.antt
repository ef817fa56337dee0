-- ===== src/Roles/Tests.antt =====
-- The theorems on the role store at a concrete store.
use server_central.Prelude.{
  ℕ, false, [], ◌∷◌, none, ◌≡◌, refl, ◌⊎◌, ◌===◌, if◌then◌else◌, includes, trim, starts_with,
}
use server_central.Prelude.Dict.{get, put, remove}
use server_central.Prelude.Clean.{clean}
use server_central.Permission.Defs.{RoleDef}
use server_central.Permission.Seeds.{viewer_role}
use server_central.Permission.Match.{is_valid_permission}
use server_central.Roles.{
  RoleStore, get_role, require_name, check_node, validate_permissions, create, delete, persist,
}
use server_central.Roles.Laws.{IsWellFormed, create-IsWellFormed}
use server_central.Roles.Laws.Removal.{delete_lem}

abbrev reader : RoleDef
reader = record {
  id = "r1";
  name = "Reader";
  description = "";
  permissions = "app.x" ∷ [];
  seeded = false;
}

abbrev renamed : RoleDef
renamed = record reader { name = "  Auditor " }

abbrev empty_store : RoleStore
empty_store = record { roles = []; file = [] }

abbrev one_role : RoleStore
one_role = record { roles = ("r1", reader) ∷ []; file = ("r1", reader) ∷ [] }

empty_store-IsWellFormed : IsWellFormed empty_store
empty_store-IsWellFormed = record { entries = tt; saved = refl }

one_role-IsWellFormed : IsWellFormed one_role
unfolding create require_name check_node validate_permissions clean is_valid_permission starts_with
    includes trim put
one_role-IsWellFormed =
    (create-IsWellFormed "r1" " Reader " " " ("app.x" ∷ " app.x" ∷ "" ∷ []) empty_store
      empty_store-IsWellFormed refl).0

abbrev held_by_none : ℕ
held_by_none = 0

delete_lem_example :
    IsWellFormed empty_store
    × (get_role empty_store "r2" ≡ (if "r1" === "r2" then none else get_role one_role "r2"))
    × ((get_role one_role "r1" ≡ none) ⊎ (held_by_none ≡ 0))
unfolding delete get remove
delete_lem_example = delete_lem "r1" held_by_none one_role "r2" one_role-IsWellFormed refl

abbrev with_viewer : RoleStore
with_viewer = persist (record one_role { roles = put one_role.roles "viewer" viewer_role })
