-- ===== src/Oidc/Claims/Scoped.antt =====
-- What apps/server/src/features/oidc/tokens.ts lets a client know of a user's nodes.
use server_central.Prelude.{
  String, true, ◌||◌, List, [], ◌∷◌, ◌++◌, Option, none, some, map, ◌≡◌, refl, arith, ◌===◌,
  Bool-cases, or-eq-true, inl, inr, is_empty, starts_with, All, filter-All, All-append, push_new,
  includes,
}
use text.Mathlib.TextEquality.{eq_iff}
use server_central.Prelude.Text.Split.{◌+++◌, append_assoc}
use server_central.Prelude.Text.Sort.{All-sort}
use server_central.Prelude.Text.Prefix.{starts_with_trans}
use server_central.Auth.{UserInfo}
use server_central.Oidc.Claims.{groups_for_client, node_of, in_scope, expanded, add_roles}

All-push_new :
    (P : String → Type 0) (out xs : List String) → All P out → All P xs → All P (push_new out xs)
unfolding push_new
All-push_new P out [] h k = h
All-push_new P out (x ∷ xs) h (k, ks) = elim (Bool-cases (includes out x)) [
  | inl e ↦ rw e (All-push_new P out xs h ks)
  | inr e ↦ rw e (All-push_new P (out ++ x ∷ []) xs (All-append P out (x ∷ []) h (k, tt)) ks)
]

starts_with-append : (s t : String) → starts_with (s +++ t) s ≡ true
unfolding starts_with
starts_with-append String.[] t = refl
starts_with-append (String.◌∷◌ c s) t = ground (arith, starts_with-append s t)

in_scope_expanded :
    (node : String) (role : String) → in_scope (some node) (node +++ ("." +++ role)) ≡ true
in_scope_expanded node role =
    let e : starts_with (node +++ ("." +++ role)) (node +++ ".") ≡ true =
      rw (← append_assoc node "." role) (starts_with-append (node +++ ".") role) in
    ground arith

roles-in_scope :
    (node : String) (rs : List String)
    → All (λ g. in_scope (some node) g ≡ true) (map (λ role. node +++ ("." +++ role)) rs)
roles-in_scope node [] = tt
roles-in_scope node (r ∷ rs) = (in_scope_expanded node r, roles-in_scope node rs)

expanded-in_scope :
    (node : String) (declared : List String)
    → All (λ g. in_scope (some node) g ≡ true) (expanded node declared)
expanded-in_scope node [] = (in_scope_expanded node "admin", tt)
expanded-in_scope node (r ∷ rs) = roles-in_scope node (r ∷ rs)

add_roles-in_scope :
    (node : Option String) (declared owned : List String)
    → All (λ g. in_scope node g ≡ true) owned
    → All (λ g. in_scope node g ≡ true) (add_roles node declared owned)
add_roles-in_scope none declared owned h = h
add_roles-in_scope (some node) declared owned h =
    All-push_new (λ g. in_scope (some node) g ≡ true) owned (expanded node declared) h
      (expanded-in_scope node declared)

groups-in_scope :
    (user : UserInfo) (group_prefix : Option String) (known declared : List String)
    → All
        (λ g. in_scope (node_of group_prefix) g ≡ true)
        (groups_for_client user group_prefix known declared)
unfolding groups_for_client
groups-in_scope user group_prefix known declared = elim (Bool-cases user.is_owner) [
  | inr e ↦ rw e (filter-All (in_scope (node_of group_prefix)) user.permissions)
  | inl e ↦ rw e (
      All-sort (λ g. in_scope (node_of group_prefix) g ≡ true) _
        (add_roles-in_scope (node_of group_prefix) declared _ (
          All-push_new (λ g. in_scope (node_of group_prefix) g ≡ true) [] _ tt
            (filter-All (in_scope (node_of group_prefix)) (known ++ user.permissions)))))
]

in_scope-app :
    (group_prefix : Option String) (g : String)
    → in_scope (node_of group_prefix) g ≡ true
    → starts_with g "app." ≡ true
in_scope-app none g h = h
in_scope-app (some prefix) g h = elim (Bool-cases (is_empty prefix)) [
  | inl e ↦ rw e at h
  | inr e ↦ under (rw e at h)
]
  where
    node : String
    node = "app." +++ prefix

    under : (g === node || starts_with g (node +++ ".")) ≡ true → starts_with g "app." ≡ true
    under k = elim (or-eq-true k) [
      | inl same ↦ rw ((eq_iff g node).0 same) (starts_with-append "app." prefix)
      | inr longer ↦
          starts_with_trans g (node +++ ".") "app." longer
            (rw (append_assoc "app." prefix ".") (starts_with-append "app." (prefix +++ ".")))
    ]

-- Every group that a client is told stands in the namespace of its app, or in `app.` when the client
-- has none; so no node of the panel is among them, also for the owner, who holds `*`.
pub groups_for_client-scoped :
    (user : UserInfo) (group_prefix : Option String) (known declared : List String)
    → All
        (λ g. (in_scope (node_of group_prefix) g ≡ true) × (starts_with g "app." ≡ true))
        (groups_for_client user group_prefix known declared)
groups_for_client-scoped user group_prefix known declared =
    both _ (groups-in_scope user group_prefix known declared)
  where
    both :
        (gs : List String)
        → All (λ g. in_scope (node_of group_prefix) g ≡ true) gs
        → All (λ g. (in_scope (node_of group_prefix) g ≡ true) × (starts_with g "app." ≡ true)) gs
    both [] h = tt
    both (g ∷ gs) (h, hs) = ((h, in_scope-app group_prefix g h), both gs hs)
