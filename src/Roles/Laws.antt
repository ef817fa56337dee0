-- ===== src/Roles/Laws.antt =====
-- The invariant of the role store, and what its operations do.
pub mod Removal
use text.Mathlib.TextEquality.{eq_iff}
use text.Mathlib.TextPositions.{eq_refl}
use server_central.Prelude.{
  ℕ, String, Bool, true, false, not, ◌&&◌, List, [], ◌∷◌, Option, none, some, ◌≡◌, refl, subst, ◌⊎◌,
  inl, inr, ok, ensure, >>=-eq-ok, ensure-eq-ok, Ensures, ensured, Ensures-bind, if◌then◌else◌,
  is_empty, trim, starts_with, ends_with_wildcard, includes, every, is_nodup, IsNodup,
  IsNodup-of_test, All, All-find, All-of_every, find-test, every_of_All, arith, Option-cases,
  Bool-cases, ltb, or_else, any, is_some, ◌===◌,
}
use server_central.Prelude.Dict.{
  Dict, get, put, remove, get-put, get-remove, All-put, All-remove, All-get,
}
use server_central.Prelude.Clean.{clean-IsNodup, clean-All}
use server_central.Permission.Defs.{RoleDef}
use server_central.Permission.Registry.{panel_permission_ids}
use server_central.Permission.Seeds.{seed_roles}
use server_central.Permission.Match.{is_valid_permission}
use server_central.Permission.Subject.{seed_role_for}
use server_central.Roles.{
  RoleStore, persist, seed, init, get_role, resolve, require_name, check_node, validate_permissions,
  create, update_existing, update, delete, reset_to_seed,
}

-- A node that a role may hold: well shaped, and registered if it is a single `panel.` node.
abbrev pub is_sound_node : String → Bool
is_sound_node node =
    is_valid_permission node
    && not (
        starts_with node "panel."
        && not (ends_with_wildcard node)
        && not (includes panel_permission_ids node))

pub record RoleIsSound (role : RoleDef) : Type 0 where
  pub named : is_empty role.name ≡ false
  pub nodes : every is_sound_node role.permissions ≡ true
  pub distinct : IsNodup role.permissions

abbrev Entry : String → RoleDef → Type 0
Entry k r = (r.id ≡ k) × RoleIsSound r

-- Each role stands under its own id and is sound, and the file holds the roles.
pub record IsWellFormed (s : RoleStore) : Type 0 where
  pub entries : All (λ e. Entry e.0 e.1) s.roles
  pub saved : s.file ≡ s.roles

check_node_sound : (raw node : String) → check_node raw ≡ ok (some node) → is_sound_node node ≡ true
unfolding check_node
check_node_sound raw node e = ground arith

validated_sound :
    (raws : List String) (nodes : List String)
    → validate_permissions raws ≡ ok nodes
    → (every is_sound_node nodes ≡ true) × IsNodup nodes
unfolding validate_permissions
validated_sound raws nodes e = (
  every_of_All is_sound_node nodes
      (clean-All check_node (λ x. is_sound_node x ≡ true) check_node_sound [] raws tt e),
  clean-IsNodup check_node [] raws tt e,
)

named_sound : (raw name : String) → require_name raw ≡ ok name → is_empty name ≡ false
unfolding require_name
named_sound raw name e =
    let (u, t, r) = >>=-eq-ok (ensure (not (is_empty (trim raw))) _) _ e in
    let q = ensure-eq-ok _ t in ground arith

is_sound_role : RoleDef → Bool
is_sound_role r =
    not (is_empty r.name) && every is_sound_node r.permissions && is_nodup r.permissions

sound_of_test : (r : RoleDef) → is_sound_role r ≡ true → RoleIsSound r
unfolding is_sound_role
sound_of_test r h = record {
  named = ground arith;
  nodes = ground arith;
  distinct = IsNodup-of_test r.permissions (ground arith);
}

seeds_tested : every is_sound_role seed_roles ≡ true
unfolding every is_sound_role seed_roles is_nodup includes panel_permission_ids is_valid_permission
    starts_with ends_with_wildcard
seeds_tested = refl

seed_sound : (id : String) (r : RoleDef) → seed_role_for id ≡ some r → RoleIsSound r × (r.id ≡ id)
unfolding seed_role_for
seed_sound id r e = (
  sound_of_test r (
      All-find (λ x. is_sound_role x ≡ true) (λ x. x.id === id) seed_roles r
        (All-of_every is_sound_role seed_roles seeds_tested) e),
  (eq_iff r.id id).0 (find-test (λ x. x.id === id) seed_roles r e),
)

saved-IsWellFormed :
    (s : RoleStore) (k : String) (r : RoleDef)
    → IsWellFormed s
    → Entry k r
    → IsWellFormed (persist (record s { roles = put s.roles k r }))
saved-IsWellFormed s k r w e = record {
  entries = All-put Entry s.roles k r w.entries e;
  saved = refl;
}

get-put_self : (m : Dict RoleDef) (k : String) (r : RoleDef) → get (put m k r) k ≡ some r
get-put_self m k r = simp (get-put, eq_refl)

-- A role that is created in a well-formed store is sound, whatever was typed, it is found under
-- its id, and the store stays well formed.
pub create-IsWellFormed :
    (uuid name description : String) (permissions : List String) (s : RoleStore) {role : RoleDef}
    {s' : RoleStore}
    → IsWellFormed s
    → create uuid name description permissions s ≡ ok (role, s')
    → IsWellFormed s' × (get_role s' uuid ≡ some role) × RoleIsSound role
unfolding create get_role
create-IsWellFormed uuid name description permissions s w =
    ensured Post (create uuid name description permissions s) (
      Ensures-bind Post (require_name name) _ λ n named.
        Ensures-bind Post (validate_permissions permissions) _ λ ps valid.
          let sound : RoleIsSound (record {
            id = uuid;
            name = n;
            description = trim description;
            permissions = ps;
            seeded = false;
          }) =
            record {
              named = named_sound name n named;
              nodes = (validated_sound permissions ps valid).0;
              distinct = (validated_sound permissions ps valid).1;
            } in
          (saved-IsWellFormed s uuid _ w (refl, sound), get-put_self s.roles uuid _, sound))
  where
    Post : RoleDef × RoleStore → Type 0
    Post p = IsWellFormed p.1 × (get_role p.1 uuid ≡ some p.0) × RoleIsSound p.0

update_existing-IsWellFormed :
    (o : Option RoleDef) (role : RoleDef) (s : RoleStore)
    → get s.roles role.id ≡ o
    → IsWellFormed s
    → Ensures IsWellFormed (update_existing o role s)
unfolding update_existing
update_existing-IsWellFormed none role s g w = tt
update_existing-IsWellFormed (some existing) role s g w =
    Ensures-bind IsWellFormed (require_name role.name) _ λ n named.
      Ensures-bind IsWellFormed (validate_permissions role.permissions) _ λ ps valid.
        saved-IsWellFormed s role.id _ w (
          (All-get Entry s.roles role.id existing w.entries g).0,
          record {
            named = named_sound role.name n named;
            nodes = (validated_sound role.permissions ps valid).0;
            distinct = (validated_sound role.permissions ps valid).1;
          },
        )

-- An edit that succeeds keeps the store well formed, whatever was typed.
update-IsWellFormed :
    (role : RoleDef) (s : RoleStore) {s' : RoleStore}
    → IsWellFormed s
    → update role s ≡ ok s'
    → IsWellFormed s'
unfolding update
update-IsWellFormed role s w =
    ensured IsWellFormed (update role s)
      (update_existing-IsWellFormed (get s.roles role.id) role s refl w)
