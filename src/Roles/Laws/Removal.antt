-- ===== src/Roles/Laws/Removal.antt =====
-- Deleting roles, giving them back, and the start.
use text.Mathlib.TextEquality.{eq_iff}
use server_central.Prelude.{
  ℕ, String, true, ◌&&◌, List, [], ◌∷◌, Option, none, some, ◌≡◌, refl, subst, ◌⊎◌, inl, inr, ok,
  Ensures, ensured, if◌then◌else◌, includes, All, All-of_every, arith, Option-cases, Bool-cases,
  ltb, or_else, any, is_some, ◌===◌,
}
use server_central.Prelude.Dict.{Dict, get, put, remove, get-remove, All-put, All-remove, All-get}
use server_central.Permission.Defs.{RoleDef}
use server_central.Permission.Seeds.{seed_roles}
use server_central.Permission.Subject.{seed_role_for}
use server_central.Roles.{RoleStore, persist, seed, init, get_role, resolve, delete, reset_to_seed}
use server_central.Roles.Laws.{
  Entry, RoleIsSound, IsWellFormed, is_sound_role, sound_of_test, seeds_tested, seed_sound,
  saved-IsWellFormed, get-put_self,
}

-- Where a deletion in a well-formed store succeeds, nobody held the role or it was not there; it
-- is gone, the other roles are as they were, and the store stays well formed.
pub delete_lem :
    (role_id : String) (held_by : ℕ) (s : RoleStore) {s' : RoleStore} (id : String)
    → IsWellFormed s
    → delete role_id held_by s ≡ ok s'
    → IsWellFormed s'
      × (get_role s' id ≡ (if role_id === id then none else get_role s id))
      × ((get_role s role_id ≡ none) ⊎ (held_by ≡ 0))
unfolding delete get_role
delete_lem role_id held_by s id w = ensured Post (delete role_id held_by s) post
  where
    Post : RoleStore → Type 0
    Post s' =
        IsWellFormed s'
        × (get s'.roles id ≡ (if role_id === id then none else get s.roles id))
        × ((get s.roles role_id ≡ none) ⊎ (held_by ≡ 0))

    left : IsWellFormed (persist (record s { roles = remove s.roles role_id }))
    left = record { entries = All-remove Entry s.roles role_id w.entries; saved = refl }

    same :
        get s.roles role_id ≡ none
        → get s.roles id ≡ (if role_id === id then none else get s.roles id)
    same g = elim (Bool-cases (role_id === id)) [
      | inl e ↦ rw e (rw ((eq_iff role_id id).0 e) at g)
      | inr e ↦ rw e
    ]

    post : Ensures Post (delete role_id held_by s)
    post = elim (Option-cases (get s.roles role_id)) [
      | inl g ↦ rw (g, delete) (w, same g, inl g)
      | inr (r, g) ↦ elim (Bool-cases (ltb 0 held_by)) [
        | inl b ↦ rw (g, b, delete) tt
        | inr b ↦ rw (g, b, delete) (left, get-remove s.roles role_id id, inr (ground arith))
      ]
    ]

-- Where a reset in a well-formed store succeeds, it gives the role that shipped under the id,
-- stores it there, and keeps the store well formed.
reset_to_seed_lem :
    (role_id : String) (s : RoleStore) {role : RoleDef} {s' : RoleStore}
    → IsWellFormed s
    → reset_to_seed role_id s ≡ ok (role, s')
    → IsWellFormed s' × (seed_role_for role_id ≡ some role) × (get_role s' role_id ≡ some role)
unfolding reset_to_seed get_role
reset_to_seed_lem role_id s w = ensured Post (reset_to_seed role_id s) post
  where
    Post : RoleDef × RoleStore → Type 0
    Post p =
        IsWellFormed p.1 × (seed_role_for role_id ≡ some p.0) × (get p.1.roles role_id ≡ some p.0)

    post : Ensures Post (reset_to_seed role_id s)
    post = elim (Option-cases (seed_role_for role_id)) [
      | inl m ↦ rw (m, reset_to_seed) tt
      | inr (r, m) ↦
          let (sound, same) = seed_sound role_id r m in
          rw (m, reset_to_seed)
            (
              saved-IsWellFormed s r.id r w (refl, sound),
              m,
              subst (λ k. get (put s.roles r.id r) k ≡ some r) same (get-put_self s.roles r.id r),
            )
    ]

seed-entries :
    (rs : List RoleDef) (roles : Dict RoleDef)
    → All RoleIsSound rs
    → All (λ e. Entry e.0 e.1) roles
    → All (λ e. Entry e.0 e.1) (seed roles rs)
unfolding seed
seed-entries [] roles h k = k
seed-entries (r ∷ rs) roles (h, t) k =
    seed-entries rs (put roles r.id r) t (All-put Entry roles r.id r k (refl, h))

All-sound : (rs : List RoleDef) → All (λ r. is_sound_role r ≡ true) rs → All RoleIsSound rs
All-sound [] h = tt
All-sound (r ∷ rs) (h, t) = (sound_of_test r h, All-sound rs t)

-- The store starts well formed: seeded on the first run, and from any file whose roles are sound.
pub init-IsWellFormed :
    (stored : Option (Dict RoleDef))
    → All (λ e. Entry e.0 e.1) (or_else stored [])
    → IsWellFormed (init stored)
unfolding init
init-IsWellFormed none h = record {
  entries =
      seed-entries seed_roles []
        (All-sound seed_roles (All-of_every is_sound_role seed_roles seeds_tested)) tt;
  saved = refl;
}
init-IsWellFormed (some []) h = record {
  entries =
      seed-entries seed_roles []
        (All-sound seed_roles (All-of_every is_sound_role seed_roles seeds_tested)) tt;
  saved = refl;
}
init-IsWellFormed (some (e ∷ es)) h = record { entries = h; saved = refl }

-- In a well-formed store the roles that a list of ids resolves to have exactly the ids that are on
-- the list and in the store.
includes-resolve :
    (s : RoleStore) (ids : List String) (id : String)
    → IsWellFormed s
    → any (λ r. r.id === id) (resolve s ids) ≡ (includes ids id && is_some (get_role s id))
unfolding resolve any includes get_role
includes-resolve s [] id w = refl
includes-resolve s (i ∷ ids) id w = elim (Option-cases (get s.roles i)) [
  | inl g ↦ rw (g, resolve) (ground (arith, includes-resolve s ids id w, eq_iff i id, at_id))
  | inr (r, g) ↦
      let key = (All-get Entry s.roles i r w.entries g).0 in
      rw (g, resolve)
        (ground (arith, includes-resolve s ids id w, eq_iff i id, eq_iff r.id id, key, at_id))
]
  where
    at_id : i ≡ id → get s.roles i ≡ get s.roles id
    at_id e = rw e
