-- ===== src/Permission/Tests.antt =====
-- The theorems on permissions at concrete nodes.
use server_central.Prelude.{
  String, Bool, true, false, List, [], ◌∷◌, some, ◌≡◌, refl, ◌↔◌, ◌⊎◌, inl, inr, ◌||◌, arith,
  includes, ends_with_wildcard, ◌===◌, eq_iff, push_new,
}
use server_central.Prelude.Dict.{get}
use server_central.Permission.Defs.{RoleDef, PermissionSubject}
use server_central.Permission.Registry.{panel_permissions}
use server_central.Permission.Match.{permission_matches, permission_overlaps}
use server_central.Permission.Matching.{Within, IsWildcard, permission_overlaps_iff}
use server_central.Permission.Requirements.{op_requirements, unclassified}
use server_central.Permission.Requirements.Exhaustive.{Lists, op_requirements_iff}
use server_central.Permission.Subject.{granted_by, effective_permissions}

abbrev wide : List String
wide = "*" ∷ "panel.*" ∷ []

only_wide : (a : String) → includes wide a ≡ true → IsWildcard a
unfolding includes ends_with_wildcard
only_wide a h = elim (either ("*" === a) ("panel.*" === a) h) [
  | inl e ↦ inr (sym_of ((eq_iff "*" a).0 e))
  | inr e ↦ inl (subst_of ((eq_iff "panel.*" a).0 e))
]
  where
    either : (p q : Bool) → (p || (q || false)) ≡ true → (p ≡ true) ⊎ (q ≡ true)
    either p q k = ground arith

    sym_of : "*" ≡ a → a ≡ "*"
    sym_of e = cc

    subst_of : "panel.*" ≡ a → ends_with_wildcard a ≡ true
    subst_of e = rw (← e)

docker-Within : Within ("panel.docker.*" ∷ []) ("app.x" ∷ "panel.docker.*" ∷ [])
unfolding includes
docker-Within a h = ground arith

permission_overlaps_iff_example : (permission_overlaps "panel.*" "panel.zfs.*" ≡ true) ↔ (
    (c : String) × (permission_matches "panel.*" c ≡ true)
    × (permission_matches "panel.zfs.*" c ≡ true))
permission_overlaps_iff_example = permission_overlaps_iff "panel.*" "panel.zfs.*"

op_requirements_iff_example : (get op_requirements "auth/login" ≡ some "public") ↔ (
    (get unclassified "auth/login" ≡ some "public")
    ⊎ Lists (λ d. d.ops) "auth/login" "public" panel_permissions)
op_requirements_iff_example = op_requirements_iff "auth/login" "public"

abbrev reader : RoleDef
reader = record {
  id = "reader";
  name = "Reader";
  description = "";
  permissions = "panel.docker.read" ∷ "panel.files.read" ∷ [];
  seeded = false;
}

-- What two roles hold in common stands once.
effective_once :
    effective_permissions false (reader ∷ reader ∷ []) ("app.x" ∷ [])
    ≡ "panel.docker.read" ∷ "panel.files.read" ∷ "app.x" ∷ []
unfolding effective_permissions granted_by push_new includes
effective_once = refl

abbrev holder : PermissionSubject
holder = record { is_owner = false; permissions = "panel.tasks.run" ∷ [] }
