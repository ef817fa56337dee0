-- ===== src/Rpc/Gate.antt =====
-- Who may run an operation.
use text.Mathlib.TextEquality.{eq_iff}
use server_central.Prelude.{
  String, true, false, not, List, [], ◌∷◌, map, Option, none, some, ◌===◌, ◌≡◌, refl, ◌↔◌, ◌⊎◌, inl,
  inr, arith, includes, every, every-of_includes, Option-cases,
}
use server_central.Prelude.Dict.{get}
use server_central.Permission.Defs.{PermissionDef, PermissionSubject}
use server_central.Permission.Api.{api_operations}
use server_central.Permission.Registry.{
  panel_permissions, sensitive_permissions, public_ops, session_ops,
}
use server_central.Permission.Matching.{IsWildcard, has_permission_sensitive}
use server_central.Permission.Requirements.{op_requirements, unclassified}
use server_central.Permission.Requirements.Exhaustive.{
  Lists, here, there, get-unclassified, op_requirements_iff, op_requirements_total,
}
use server_central.Permission.Subject.{user_can}
use server_central.Rpc.{allowed, denied, forbidden, requires, check, authorize}

abbrev pub OpOf : String → String → Type 0
OpOf op r = Lists (λ d. d.ops) op r panel_permissions

ids_of : List PermissionDef → List String
ids_of ds = map (λ d. d.id) ds

Lists-id :
    {op r : String} {ds : List PermissionDef}
    → Lists (λ d. d.ops) op r ds
    → includes (ids_of ds) r ≡ true
unfolding includes ids_of
Lists-id {ds = []} l = elim l [ ]
Lists-id {r} {ds = d ∷ ds} (here same listed) = ground (arith, (eq_iff d.id r).1 same)
Lists-id {ds = d ∷ ds} (there l) = ground (arith, Lists-id l)

no_rung :
    (includes (ids_of panel_permissions) "public" ≡ false)
    × (includes (ids_of panel_permissions) "authenticated" ≡ false)
unfolding includes ids_of panel_permissions
no_rung = (refl, refl)

disjoint_rungs : every (λ op. not (includes session_ops op)) public_ops ≡ true
unfolding every includes session_ops public_ops
disjoint_rungs = refl

public_of_requirement :
    (op : String) → get op_requirements op ≡ some "public" → includes public_ops op ≡ true
public_of_requirement op e = elim ((op_requirements_iff op "public").0 e) [
  | inl g ↦ ground (arith, get-unclassified op, eq_iff "authenticated" "public")
  | inr l ↦ cc (Lists-id l, no_rung.0)
]

requirement_of_public :
    (op : String) → includes public_ops op ≡ true → get op_requirements op ≡ some "public"
requirement_of_public op i =
    let d : not (includes session_ops op) ≡ true =
      every-of_includes (λ o. not (includes session_ops o)) public_ops op disjoint_rungs i in
    (op_requirements_iff op "public").1 (inl (ground (arith, get-unclassified op)))

-- The two rungs are no nodes.
node-ne-rung :
    {op r : String} → OpOf op r → ((r === "public") ≡ false) × ((r === "authenticated") ≡ false)
node-ne-rung {op} {r} l = (
  ground (arith, eq_iff r "public", Lists-id l, no_rung.0, same_id "public"),
  ground (arith, eq_iff r "authenticated", Lists-id l, no_rung.1, same_id "authenticated"),
)
  where
    same_id :
        (s : String)
        → r ≡ s
        → includes (ids_of panel_permissions) r ≡ includes (ids_of panel_permissions) s
    same_id s e = rw e

authorize_of :
    (op r : String) (user : Option PermissionSubject)
    → get op_requirements op ≡ some r
    → authorize op user ≡ check r user
unfolding authorize check
authorize_of op r user e = rw (e, authorize)

authorize_unclassified :
    (op : String) (user : Option PermissionSubject)
    → get op_requirements op ≡ none
    → authorize op user ≡ denied 403 forbidden
unfolding authorize
authorize_unclassified op user e = rw (e, authorize)

check_anonymous : (r : String) → check r none ≡ allowed → r ≡ "public"
unfolding check
check_anonymous r h = (eq_iff r "public").0 (ground arith)

-- Without a session exactly the public operations run: first-run setup and login.
pub authorize_anonymous :
    (op : String) → (authorize op none ≡ allowed) ↔ (includes public_ops op ≡ true)
authorize_anonymous op = (
  λ h. elim (Option-cases (get op_requirements op)) [
    | inl e ↦ cc (authorize_unclassified op none e)
    | inr (r, e) ↦
        let p = check_anonymous r (cc (authorize_of op r none e)) in
        public_of_requirement op (rw p at e)
  ],
  λ i. cc (authorize_of op "public" none (requirement_of_public op i), check_public),
)
  where
    check_public : check "public" none ≡ allowed
    check_public = unfold check in refl

rung_cases : (op r : String) → get unclassified op ≡ some r → (r ≡ "public") ⊎ (r ≡ "authenticated")
rung_cases op r g = ground (arith, get-unclassified op)

check_rung :
    (r : String) (user : PermissionSubject)
    → (r ≡ "public") ⊎ (r ≡ "authenticated")
    → check r (some user) ≡ allowed
unfolding check
check_rung r user (inl e) = rw e
check_rung r user (inr e) = rw e

check_node :
    (op r : String) (user : PermissionSubject)
    → OpOf op r
    → (check r (some user) ≡ allowed) ↔ (user_can (some user) r ≡ true)
unfolding check
check_node op r user l = ground (arith, node-ne-rung l)

-- A user who is signed in runs an operation exactly if it is public, or one of the session's own,
-- or listed by a node that the user holds.
pub authorize_user :
    (op : String) (user : PermissionSubject)
    → (authorize op (some user) ≡ allowed) ↔ (
        ((r : String) × (get unclassified op ≡ some r))
        ⊎ ((r : String) × OpOf op r × (user_can (some user) r ≡ true)))
authorize_user op user = (
  λ h. elim (Option-cases (get op_requirements op)) [
    | inl e ↦ cc (authorize_unclassified op (some user) e)
    | inr (r, e) ↦ elim ((op_requirements_iff op r).0 e) [
      | inl g ↦ inl (r, g)
      | inr l ↦ inr (r, l, (check_node op r user l).0 (cc (authorize_of op r (some user) e)))
    ]
  ],
  λ c. elim c [
    | inl (r, g) ↦ cc (
      authorize_of op r (some user) ((op_requirements_iff op r).1 (inl g)),
      check_rung r user (rung_cases op r g),
    )
    | inr (r, l, u) ↦ cc (
      authorize_of op r (some user) ((op_requirements_iff op r).1 (inr l)),
      (check_node op r user l).1 u,
    )
  ],
)

-- An operation that a sensitive node lists is refused, with 403 and the name of the node, to a
-- user who is not the owner and holds nothing but wildcards, `*` included.
pub authorize_sensitive :
    (op r : String) (user : PermissionSubject)
    → OpOf op r
    → includes sensitive_permissions r ≡ true
    → user.is_owner ≡ false
    → ((a : String) → includes user.permissions a ≡ true → IsWildcard a)
    → authorize op (some user) ≡ denied 403 (requires r)
unfolding check user_can
authorize_sensitive op r user l s o wild = ground (
  arith,
  authorize_of op r (some user) ((op_requirements_iff op r).1 (inr l)),
  node-ne-rung l,
  has_permission_sensitive user.permissions r s wild,
)

-- The owner runs every operation that the API declares.
authorize_owner :
    (op : String) (user : PermissionSubject)
    → includes api_operations op ≡ true
    → user.is_owner ≡ true
    → authorize op (some user) ≡ allowed
unfolding check user_can
authorize_owner op user i o =
    let (r, e) = op_requirements_total op i in ground (arith, authorize_of op r (some user) e)
